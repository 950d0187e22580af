-- ===== src/Models/Error.antt =====
-- src/error.rs: the application error, its display, and its HTTP status and message.
use matrix_identity_admin.Prelude.{ℕ, ◌++◌, Bool, true, false}
use matrix_identity_admin.Text.{Text, codes}

-- The errors of sqlx and anyhow are third-party values; what is kept of one is its display.
pub data AppError : Type 0 where
  auth : Text → AppError
  upstream : Text → Text → AppError
  validation : Text → AppError
  not_found : Text → AppError
  database : Text → AppError
  internal : Text → AppError

-- `#[error(..)]`
unfoldable pub error_text : AppError → Text
error_text (AppError.auth m) = codes "Authentication error: " ++ m
error_text (AppError.upstream service message) =
    codes "Upstream API error from " ++ (service ++ (codes ": " ++ message))
error_text (AppError.validation m) = codes "Validation error: " ++ m
error_text (AppError.not_found m) = codes "Not found: " ++ m
error_text (AppError.database m) = codes "Database error: " ++ m
error_text (AppError.internal m) = codes "Internal error: " ++ m

pub record ErrorPage : Type 0 where
  pub status : ℕ
  pub message : Text

abbrev pub page : ℕ → Text → ErrorPage
page status message = record { status = status; message = message }

-- `IntoResponse`, up to the template that prints the page.
unfoldable pub into_response : AppError → ErrorPage
into_response (AppError.auth m) = page 401 (codes "Authentication required.")
into_response (AppError.not_found m) = page 404 m
into_response (AppError.validation m) = page 400 m
into_response (AppError.upstream service message) =
    page 502
      (codes "An upstream service (" ++ (service ++ codes ") is unavailable or returned an error."))
into_response (AppError.database m) = page 500 (codes "A database error occurred.")
into_response (AppError.internal m) = page 500 (codes "An internal error occurred.")

pub data Result {ℓ} (A : Type ℓ) : Type ℓ where
  ok : A → Result A
  err : AppError → Result A

abbrev pub is_ok {ℓ} : {A : Type ℓ} → Result A → Bool
is_ok (ok a) = true
is_ok (err e) = false

-- `Result<(), AppError>`
abbrev pub Done : Type 0
Done = Result (Unit {0})
