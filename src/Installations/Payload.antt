-- ===== src/Installations/Payload.antt =====
-- The body of a webhook (src/coursefuzz/security/webhooks.py): its signature, and the event in it.
pub mod Actionable
use Prim.Native.Char.{Char, code}
use Prim.Native.String.{[] as empty, ◌∷◌ as ◌▹◌}
use course_fuzz.Prelude.{
  ℕ, suc, ℤ, pos, negsuc, String, Bool, true, false, not, ◌&&◌, ◌||◌, Option, none, some, List, [],
  ◌∷◌, contains, leb, ltb, nat_beq, ◌==◌, string_eq, if◌then◌else◌,
}
use course_fuzz.Prelude.Result.{Result, ok, raised, other_error}
use course_fuzz.Installations.{
  InstallationEvent, is_full_sync, is_add, is_remove, is_delete, is_suspend,
}

-- What `json.loads` makes; `real` keeps the literal of a float.
mutual
  pub data Json : Type 0 where
    null : Json
    boolean : Bool → Json
    number : ℤ → Json
    real : String → Json
    text : String → Json
    array : Items → Json
    object : Fields → Json

  pub data Items : Type 0 where
    no_items : Items
    item : Json → Items → Items

  pub data Fields : Type 0 where
    no_fields : Fields
    field : String → Json → Fields → Fields

-- d.get(name), where a missing key is None like a null.
unfoldable pub get : String → Fields → Json
get name no_fields = null
get name (field key value rest) = let found = get name rest in if key == name then value else found

-- [a-z0-9_.-]
unfoldable pub is_name_char : Char → Bool
is_name_char c =
    let n = code c in
    (leb 97 n && leb n 122)
    || (leb 48 n && leb n 57)
    || nat_beq n 95
    || nat_beq n 46
    || nat_beq n 45

-- The rest of a text behind the slash, and in front of it; `seen` tells of a character before.
unfoldable pub in_name : (seen : Bool) → String → Bool
unfolding is_name_char
in_name seen empty = seen
in_name seen (c ▹ t) = is_name_char c && in_name true t

unfoldable pub in_owner : (seen : Bool) → String → Bool
unfolding is_name_char in_name
in_owner seen empty = false
in_owner seen (c ▹ t) =
    let owner = in_owner true t in
    if is_name_char c then owner else nat_beq (code c) 47 && seen && in_name false t

-- _REPOSITORY_PATTERN.fullmatch
unfoldable pub is_repository : String → Bool
unfolding in_owner
is_repository t = in_owner false t

-- _HANDLED_EVENTS
abbrev pub handled_events : List String
handled_events = "installation" ∷ "installation_repositories" ∷ []

module _ (lower : String → String) where
  -- names.add, where the entry has a name of a repository
  unfoldable pub add_name : Json → List String → List String
  unfolding is_repository
  add_name (text full_name) names =
      if is_repository (lower full_name)
      then if contains (lower full_name) names then names else lower full_name ∷ names
      else names
  add_name _ names = names

  unfoldable pub add_entry : Json → List String → List String
  unfolding add_name get
  add_entry (object entry) names = add_name (get "full_name" entry) names
  add_entry _ names = names

  unfoldable pub add_entries : Items → List String → List String
  unfolding add_entry
  add_entries no_items names = names
  add_entries (item entry rest) names = add_entries rest (add_entry entry names)

  unfoldable pub clean_repositories : Json → List String
  unfolding add_entries
  clean_repositories (array entries) = add_entries entries []
  clean_repositories _ = []

  -- The login of the account, where there is one.
  unfoldable pub login_text : Json → Option String
  login_text (text login) = some login
  login_text _ = none

  unfoldable pub login_of : Json → Option String
  unfolding login_text get
  login_of (object account) = login_text (get "login" account)
  login_of _ = none

  -- The repositories of an action, and `none` where the action is not handled.
  unfoldable pub repositories_of :
      (event_type action : String) → (payload : Fields) → Option (List String)
  unfolding clean_repositories get
  repositories_of event_type action payload =
      if event_type == "installation"
      then if is_full_sync action
        then some (clean_repositories (get "repositories" payload))
        else if is_delete action || is_suspend action
        then some []
        else none
      else if is_add action
      then some (clean_repositories (get "repositories_added" payload))
      else if is_remove action
      then some (clean_repositories (get "repositories_removed" payload))
      else none

  unfoldable pub event_of :
      (installation_id : ℕ) (account_login : Option String) (action : String)
      → Option (List String)
      → Option InstallationEvent
  event_of installation_id account_login action none = none
  event_of installation_id account_login action (some repositories) = some (record {
    installation_id = installation_id;
    account_login = account_login;
    action = action;
    repositories = repositories;
  })

  -- What follows the checks of the identifier.
  unfoldable pub with_action :
      (event_type : String) (payload : Fields) (installation_id : ℕ) (account_login : Option String)
      → Json
      → Option InstallationEvent
  unfolding event_of repositories_of
  with_action event_type payload installation_id account_login (text action) =
      event_of installation_id account_login action (repositories_of event_type action payload)
  with_action event_type payload installation_id account_login _ = none

  unfoldable pub with_id :
      (event_type : String) (payload installation : Fields) → Json → Option InstallationEvent
  unfolding with_action login_of get
  with_id event_type payload installation (number (pos (suc n))) =
      with_action event_type payload (suc n) (login_of (get "account" installation))
        (get "action" payload)
  with_id event_type payload installation _ = none

  unfoldable pub with_installation :
      (event_type : String) (payload : Fields) → Json → Option InstallationEvent
  unfolding with_id get
  with_installation event_type payload (object installation) =
      with_id event_type payload installation (get "id" installation)
  with_installation event_type payload _ = none

  unfoldable pub parse_installation_event : (event_type : String) → Json → Option InstallationEvent
  unfolding with_installation get
  parse_installation_event event_type (object payload) =
      if contains event_type handled_events
      then with_installation event_type payload (get "installation" payload)
      else none
  parse_installation_event event_type _ = none

prepend : Char → Option (String × String) → Option (String × String)
prepend c none = none
prepend c (some (a, b)) = some (c ▹ a, b)

-- header.partition("="); `none` where the separator is missing
unfoldable pub partition : String → Option (String × String)
unfolding prepend
partition empty = none
partition (c ▹ t) =
    let rest = partition t in if nat_beq (code c) 61 then some ("", t) else prepend c rest

unfoldable pub is_ascii : String → Bool
is_ascii empty = true
is_ascii (c ▹ t) = ltb (code c) 128 && is_ascii t

-- hmac.compare_digest, which takes texts only in ASCII
unfoldable pub compare_digest : String → String → Result Bool
unfolding is_ascii
compare_digest a b =
    if is_ascii a && is_ascii b then ok (a == b) else raised (other_error "TypeError")

-- The HMAC of the body as hexadecimal digits, and `str.strip`.
pub record Digests : Type 0 where
  pub hmac_sha256 : (secret body : String) → String
  pub strip : String → String

module _ (digests : Digests) (secret body : String) where
  unfoldable pub check_parts : Option (String × String) → Result Bool
  unfolding compare_digest
  check_parts none = ok false
  check_parts (some (scheme, provided)) =
      if not (scheme == "sha256") || provided == ""
      then ok false
      else compare_digest (digests.hmac_sha256 secret body) (digests.strip provided)

  unfoldable pub verify_github_signature : (signature_header : Option String) → Result Bool
  unfolding check_parts partition
  verify_github_signature none = ok false
  verify_github_signature (some header) =
      if secret == "" || header == "" then ok false else check_parts (partition header)
