-- ===== src/Session.antt =====
-- `SessionState` of pkg/chsession/state.go: the state of one client connection, its setters and its
-- tests. The mutex makes each method one step. `Any` is the type of what the Go code keeps as `any`.
use housegate.Base.{
  ℕ, Bool, true, false, not, ◌&&◌, Option, none, some, List, [], ◌∷◌, String, str_eq, if◌then◌else◌,
}

pub record IdentityClaims : Type 0 where
  pub tenant_id : String
  pub user_id : String
  pub role : String

-- `IsAnonymous` of identity.go
unfoldable pub is_anonymous : IdentityClaims → Bool
is_anonymous c = str_eq c.tenant_id "" && str_eq c.user_id ""

pub record VersionTriple : Type 0 where
  pub major : ℕ
  pub minor : ℕ
  pub patch : ℕ

-- The struct's fields but its mutex.
pub record SessionState (Hello Setting Any : Type 0) : Type 0 where
  pub client_hostname : String
  pub client_version : VersionTriple
  pub client_revision : ℕ
  pub server_display_name : String
  pub timezone : String
  pub chunked_recv : String
  pub chunked_send : String
  pub authenticated_user : String
  pub mapped_user : String
  pub mapped_password : String
  pub identity : IdentityClaims
  pub database : String
  pub logical_database : String
  pub settings : List (String × Setting)
  pub route_target : String
  pub is_peer_trusted : Bool
  pub peer_address : String
  pub is_forwarded_from_peer : Bool
  pub is_internal_port : Bool
  pub is_forwarding : Bool
  pub replica_served_database : String
  pub replica_failover_eligible : Bool
  pub last_query_id : String
  pub last_client_info : Option Any
  pub last_rewrite_args : Option Any
  pub has_active_rewrite : Bool
  pub commit_gate_event : Option Any
  pub peer_server_hello_raw : List ℕ
  pub peer_revision : ℕ
  pub upstream_hello : Option Hello
  pub maintenance : Bool
  pub platform_operator : Bool
  pub is_driver : Bool

abbrev pub nobody : IdentityClaims
nobody = record { tenant_id = ""; user_id = ""; role = "" }

module _ {Hello Setting Any : Type 0} where
  -- `NewSessionState`
  unfoldable pub new_session_state : SessionState Hello Setting Any
  new_session_state = record {
    client_hostname = "";
    client_version = record { major = 0; minor = 0; patch = 0 };
    client_revision = 0;
    server_display_name = "";
    timezone = "";
    chunked_recv = "";
    chunked_send = "";
    authenticated_user = "";
    mapped_user = "";
    mapped_password = "";
    identity = nobody;
    database = "";
    logical_database = "";
    settings = [];
    route_target = "";
    is_peer_trusted = false;
    peer_address = "";
    is_forwarded_from_peer = false;
    is_internal_port = false;
    is_forwarding = false;
    replica_served_database = "";
    replica_failover_eligible = false;
    last_query_id = "";
    last_client_info = none;
    last_rewrite_args = none;
    has_active_rewrite = false;
    commit_gate_event = none;
    peer_server_hello_raw = [];
    peer_revision = 0;
    upstream_hello = none;
    maintenance = false;
    platform_operator = false;
    is_driver = false;
  }

module _ {Hello Setting Any : Type 0} (s : SessionState Hello Setting Any) where
  -- a clone of a value is the value
  unfoldable pub set_upstream_hello : Option Hello → SessionState Hello Setting Any
  set_upstream_hello hello = record s { upstream_hello = hello }

  unfoldable pub set_route_target : String → SessionState Hello Setting Any
  set_route_target addr = record s { route_target = addr }

  -- `IsRouted`: a forward-pivoted session keeps a route target and is not routed.
  unfoldable pub is_routed : Bool
  is_routed = not (str_eq s.route_target "") && not s.is_forwarding

  unfoldable pub set_forwarding : Bool → SessionState Hello Setting Any
  set_forwarding v = record s { is_forwarding = v }

  unfoldable pub set_replica_served_database : String → SessionState Hello Setting Any
  set_replica_served_database database = record s { replica_served_database = database }

  unfoldable pub set_peer_trust_forwarded : String → Bool → SessionState Hello Setting Any
  set_peer_trust_forwarded peer_addr forwarded = record s {
    is_peer_trusted = true;
    peer_address = peer_addr;
    is_forwarded_from_peer = forwarded;
  }

  unfoldable pub set_peer_trust : String → SessionState Hello Setting Any
  unfolding set_peer_trust_forwarded
  set_peer_trust peer_addr = set_peer_trust_forwarded peer_addr false

  unfoldable pub set_database : String → SessionState Hello Setting Any
  set_database db = record s { database = db }

  unfoldable pub set_logical_database : String → SessionState Hello Setting Any
  set_logical_database db = record s { logical_database = db }

  unfoldable pub mark_active_rewrite : Any → SessionState Hello Setting Any
  mark_active_rewrite args = record s { has_active_rewrite = true; last_rewrite_args = some args }

  unfoldable pub clear_active_rewrite : SessionState Hello Setting Any
  clear_active_rewrite = record s { has_active_rewrite = false }

  unfoldable pub set_commit_gate_event : Any → SessionState Hello Setting Any
  set_commit_gate_event ev = record s { commit_gate_event = some ev }

  -- `TakeCommitGateEvent`: the event, and the state without it.
  unfoldable pub take_commit_gate_event : Option Any × SessionState Hello Setting Any
  take_commit_gate_event = (s.commit_gate_event, record s { commit_gate_event = none })

  unfoldable pub clear_commit_gate_event : SessionState Hello Setting Any
  clear_commit_gate_event = record s { commit_gate_event = none }

  unfoldable pub set_maintenance : Bool → SessionState Hello Setting Any
  set_maintenance v = record s { maintenance = v }

  unfoldable pub set_platform_operator : Bool → SessionState Hello Setting Any
  set_platform_operator v = record s { platform_operator = v }

  unfoldable pub set_is_driver : Bool → SessionState Hello Setting Any
  set_is_driver v = record s { is_driver = v }

-- `AddSetting`: a write to the map.
unfoldable pub put_setting {ℓ} :
    {Setting : Type ℓ} → String → Setting → List (String × Setting) → List (String × Setting)
put_setting k v [] = (k, v) ∷ []
put_setting k v ((j, w) ∷ m) = if str_eq j k then (k, v) ∷ m else (j, w) ∷ put_setting k v m

unfoldable pub add_setting :
    {Hello Setting Any : Type 0} (s : SessionState Hello Setting Any) (k : String) (v : Setting)
    → SessionState Hello Setting Any
unfolding put_setting
add_setting s k v = record s { settings = put_setting k v s.settings }
