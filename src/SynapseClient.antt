-- ===== src/SynapseClient.antt =====
-- src/clients/synapse.rs: the client of Synapse over HTTP, with the methods that the program calls.
-- reqwest and the crate percent_encoding are parameters; of a JSON value, the objects and the
-- numbers are kept apart, and an object is the list of its members. One request is followed at a
-- time.
pub mod Levels
use matrix_identity_admin.Prelude.{
  ℕ, List, [], ◌∷◌, ◌++◌, map, keep, Option, none, some, Bool, true, false, not, ◌&&◌, ◌⊎◌, inl,
  inr, is_empty, if◌then◌else◌,
}
use matrix_identity_admin.Text.{Text, codes, text_eq, show_nat, ℤ}
use matrix_identity_admin.Models.Error.{Result, ok, err}
use matrix_identity_admin.Models.Rooms.{RoomList}
use matrix_identity_admin.Effects.Clients.{MatrixService, Reply}
use matrix_identity_admin.KeycloakClient.{HttpError, Method, upstream_error}

mutual
  pub data Value : Type 0 where
    object : Members → Value
    number : ℤ → Value
    string : Text → Value
    other : Text → Value

  pub data Members : Type 0 where
    end : Members
    member : Text → Value → Members → Members

-- `get(key)`
unfoldable pub lookup : Text → Members → Option Value
lookup key Members.end = none
lookup key (Members.member k v rest) =
    let more = lookup key rest in if text_eq k key then some v else more

-- `insert(key, value)`
unfoldable pub insert_member : Text → Value → Members → Members
insert_member key v Members.end = Members.member key v Members.end
insert_member key v (Members.member k w rest) =
    let more = insert_member key v rest in
    if text_eq k key then Members.member k v rest else Members.member k w more

-- The level in the object of the users, which is added if it is missing; what is no object stays.
unfoldable pub put_users : Text → ℤ → Option Value → Members → Members
put_users user level none ms =
    insert_member (codes "users")
      (Value.object (insert_member user (Value.number level) Members.end)) ms
put_users user level (some (Value.object us)) ms =
    insert_member (codes "users") (Value.object (insert_member user (Value.number level) us)) ms
put_users user level (some v) ms = ms

unfoldable pub with_level : Text → ℤ → Value → Value
with_level user level (Value.object ms) =
    Value.object (put_users user level (lookup (codes "users") ms) ms)
with_level user level v = v

pub record SynapseRequest : Type 0 where
  pub method : Method
  pub url : Text
  pub json : Option Value

-- An event of the state of a room.
pub record StateEvent : Type 0 where
  pub event_type : Text
  pub state_key : Text
  pub content : Value

pub record SynapseHttp (N R : Type 0) : Type 0 where
  pub send : Text → SynapseRequest → N → (HttpError ⊎ R) × N
  pub error_for_status : R → HttpError ⊎ R
  pub json_members : R → N → (HttpError ⊎ List Text) × N
  pub json_state : R → N → (HttpError ⊎ List StateEvent) × N
  pub json_rooms : R → N → (HttpError ⊎ RoomList) × N
  pub json_value : R → N → (HttpError ⊎ Value) × N
  pub percent_encode : Text → Text

pub record SynapseConfig : Type 0 where
  pub base_url : Text
  pub admin_token : Text

-- `.map_err(|e| upstream_error("synapse", e))?` on an answer, and what follows.
unfoldable pub on_answer : {N A B : Type 0} → (A → Reply N B) → (HttpError ⊎ A) × N → Result B × N
on_answer f (inl e, n) = (err (upstream_error (codes "synapse") e), n)
on_answer f (inr a, n) = f a n

infixl 5 ◌>>=◌
unfoldable pub ◌>>=◌ : {N A B : Type 0} → (N → (HttpError ⊎ A) × N) → (A → Reply N B) → Reply N B
◌>>=◌ m f n = on_answer f (m n)

abbrev pub checked : {N A : Type 0} → HttpError ⊎ A → N → (HttpError ⊎ A) × N
checked a n = (a, n)

abbrev pub answered : {N A : Type 0} → A → Reply N A
answered a n = (ok a, n)

unfoldable pub has_content : Value → Bool
has_content (Value.object Members.end) = false
has_content (Value.object (Members.member k v rest)) = true
has_content v = false

-- An active child of a space.
unfoldable pub is_child : StateEvent → Bool
is_child e =
    text_eq e.event_type (codes "m.space.child")
    && (not (is_empty e.state_key) && has_content e.content)

abbrev child_of : StateEvent → Text
child_of e = e.state_key

module _ {N R : Type 0} (http : SynapseHttp N R) (config : SynapseConfig) where
  abbrev pub synapse_url : Text → Text
  synapse_url path = config.base_url ++ path

  -- `/rooms/{encoded}` below a prefix, and what follows it.
  abbrev pub room_url : Text → Text → Text → Text
  room_url prefix room rest = synapse_url (prefix ++ (http.percent_encode room ++ rest))

  abbrev pub send_synapse : Method → Text → Option Value → N → (HttpError ⊎ R) × N
  send_synapse method url json =
      http.send config.admin_token (record { method = method; url = url; json = json })

  -- A request whose answer is read.
  unfoldable pub get_json : {A : Type 0} → (R → N → (HttpError ⊎ A) × N) → Text → Reply N A
  get_json json url = do
    response ← send_synapse Method.get url none
    good ← checked (http.error_for_status response)
    body ← json good
    answered body

  -- A request of which only the status is read.
  unfoldable pub send_done : Method → Text → Value → Reply N (Unit {0})
  send_done method url value = do
    response ← send_synapse method url (some value)
    good ← checked (http.error_for_status response)
    answered tt

  unfoldable pub get_joined_room_members : Text → Reply N (List Text)
  get_joined_room_members room =
      get_json http.json_members
        (room_url (codes "/_synapse/admin/v1/rooms/") room (codes "/members"))

  unfoldable pub force_join_user : Text → Text → Reply N (Unit {0})
  force_join_user user room =
      send_done Method.post (room_url (codes "/_synapse/admin/v1/join/") room [])
        (Value.object (Members.member (codes "user_id") (Value.string user) Members.end))

  unfoldable pub kick_user_from_room : Text → Text → Text → Reply N (Unit {0})
  kick_user_from_room user room reason =
      send_done Method.post (room_url (codes "/_matrix/client/v3/rooms/") room (codes "/kick")) (
        Value.object (
          Members.member (codes "user_id") (Value.string user)
            (Members.member (codes "reason") (Value.string reason) Members.end)))

  unfoldable pub state_of : Text → Reply N (List StateEvent)
  state_of space =
      get_json http.json_state (room_url (codes "/_synapse/admin/v1/rooms/") space (codes "/state"))

  abbrev pub children_of : Result (List StateEvent) × N → Result (List Text) × N
  children_of (ok events, n) = (ok (map child_of (keep is_child events)), n)
  children_of (err e, n) = (err e, n)

  unfoldable pub get_space_children : Text → Reply N (List Text)
  get_space_children space n = children_of (state_of space n)

  abbrev pub from_query : Option Text → Text
  from_query none = []
  from_query (some from) = codes "&from=" ++ from

  unfoldable pub list_rooms : ℕ → Option Text → Reply N RoomList
  list_rooms limit from =
      get_json http.json_rooms (
        synapse_url
          (codes "/_synapse/admin/v1/rooms?limit=" ++ (show_nat limit ++ from_query from)))

  unfoldable pub set_power_level : Text → Text → ℤ → Reply N (Unit {0})
  set_power_level room user level =
      let url =
        room_url (codes "/_matrix/client/v3/rooms/") room (codes "/state/m.room.power_levels") in
      do
        response ← send_synapse Method.get url none
        good ← checked (http.error_for_status response)
        levels ← http.json_value good
        send_done Method.put url (with_level user level levels)

  unfoldable pub synapse_client : MatrixService N
  synapse_client = record {
    get_joined_room_members = λ room. get_joined_room_members room;
    force_join_user = λ user room. force_join_user user room;
    kick_user_from_room = λ user room reason. kick_user_from_room user room reason;
    get_space_children = λ space. get_space_children space;
    list_rooms = λ limit from. list_rooms limit from;
    set_power_level = λ room user level. set_power_level room user level;
  }
