-- ===== src/Namespaces.antt =====
-- engine/namespace.go: namespaces, their options, and the manager that finds a channel's namespace.
-- A manager's map of pointers holds the namespaces themselves: no code of the repository writes to
-- one after it is registered. Durations are in seconds. Of the sizes and limits the code only asks
-- whether they are above 0, which a negative one fails as 0 does, so they are natural numbers.
pub mod Channels
mod Tests
use stream_relay.Prelude.{
  ℕ, ◌*◌, Bool, true, false, not, ◌&&◌, Option, none, some, List, [], ◌∷◌, ◌++◌, Bytes, codes, Map,
  lookup, insert, delete, str_eq, ltb, if◌then◌else◌, length, take, drop, ◌==◌,
}
use stream_relay.Protocol.{Result, ok, err, bad_request}

pub record NamespaceOptions : Type 0 where
  pub history_size : ℕ
  pub history_ttl : ℕ
  pub history_recover : Bool
  pub presence : Bool
  pub join_leave : Bool
  pub force_push_join_leave : Bool
  pub presence_disable_for_client : Bool
  pub publish : Bool
  pub subscribe_to_publish : Bool
  pub anonymous : Bool
  pub protected : Bool
  pub force_positioning : Bool
  pub force_recovery : Bool
  pub max_subscribers : ℕ
  pub max_channel_length : ℕ
  pub single_connection : Bool
  pub proxy_subscribe : Bool
  pub proxy_publish : Bool

pub record Namespace : Type 0 where
  pub name : Bytes
  pub channel_prefix : Bytes
  pub options : NamespaceOptions

-- The zero value, from which a literal sets some fields.
abbrev pub zero_options : NamespaceOptions
zero_options = record {
  history_size = 0;
  history_ttl = 0;
  history_recover = false;
  presence = false;
  join_leave = false;
  force_push_join_leave = false;
  presence_disable_for_client = false;
  publish = false;
  subscribe_to_publish = false;
  anonymous = false;
  protected = false;
  force_positioning = false;
  force_recovery = false;
  max_subscribers = 0;
  max_channel_length = 0;
  single_connection = false;
  proxy_subscribe = false;
  proxy_publish = false;
}

abbrev hour : ℕ
hour = 3600

abbrev pub default_namespace_options : NamespaceOptions
default_namespace_options = record zero_options {
  history_size = 100;
  history_ttl = 24 * hour;
  history_recover = true;
  presence = true;
  publish = true;
  max_channel_length = 255;
}

pub record NamespaceManager : Type 0 where
  pub namespaces : Map Namespace
  pub default_ns : Namespace

abbrev pub new_namespace_manager : NamespaceManager
new_namespace_manager = record {
  namespaces = [];
  default_ns = record {
    name = codes "default";
    channel_prefix = [];
    options = default_namespace_options;
  };
}

unfoldable pub register : NamespaceManager → Namespace → NamespaceManager
register m ns = record m { namespaces = insert ns.name ns m.namespaces }

unfoldable pub get : NamespaceManager → Bytes → Option Namespace
get m name = lookup name m.namespaces

-- The test of the loop, and of `StripPrefix`: a nonempty prefix with something behind it.
unfoldable pub catches : Namespace → Bytes → Bool
catches ns channel =
    not (str_eq ns.channel_prefix [])
    && (ltb (length ns.channel_prefix) (length channel)
        && str_eq (take (length ns.channel_prefix) channel) ns.channel_prefix)

-- The loop over the map, in the order in which it is ranged over.
unfoldable pub get_by_channel_from : Map Namespace → Namespace → Bytes → Namespace
get_by_channel_from [] fallback channel = fallback
get_by_channel_from ((_, ns) ∷ m) fallback channel =
    if catches ns channel then ns else get_by_channel_from m fallback channel

unfoldable pub get_by_channel : NamespaceManager → Bytes → Namespace
get_by_channel m channel = get_by_channel_from m.namespaces m.default_ns channel

unfoldable pub set_default : NamespaceManager → Namespace → NamespaceManager
set_default m ns = record m { default_ns = ns }

-- The values of the map, in the order of a range loop.
abbrev pub values {ℓ} : {V : Type ℓ} → Map V → List V
values [] = []
values ((_, v) ∷ m) = v ∷ values m

unfoldable pub list_namespaces : NamespaceManager → List Namespace
list_namespaces m = m.default_ns ∷ values m.namespaces

unfoldable pub remove_namespace : NamespaceManager → Bytes → NamespaceManager
remove_namespace m name = record m { namespaces = delete name m.namespaces }

unfoldable pub channel_name : Namespace → Bytes → Bytes
channel_name ns channel =
    if str_eq ns.channel_prefix [] then channel else ns.channel_prefix ++ channel

unfoldable pub strip_prefix : Namespace → Bytes → Bytes
strip_prefix ns channel =
    if str_eq ns.channel_prefix []
    then channel
    else if ltb (length ns.channel_prefix) (length channel)
        && str_eq (take (length ns.channel_prefix) channel) ns.channel_prefix
    then drop (length ns.channel_prefix) channel
    else channel

unfoldable pub validate_channel : Namespace → Bytes → Result (Unit {0})
validate_channel ns channel =
    if length channel == 0
    then err bad_request
    else if ltb 0 ns.options.max_channel_length
        && ltb ns.options.max_channel_length (length channel)
    then err bad_request
    else ok tt

abbrev pub chat_namespace : Bytes → Namespace
chat_namespace prefix = record {
  name = codes "chat";
  channel_prefix = prefix;
  options = record zero_options {
    history_size = 1000;
    history_ttl = 7 * 24 * hour;
    history_recover = true;
    presence = true;
    join_leave = true;
    publish = true;
  };
}

abbrev pub notification_namespace : Bytes → Namespace
notification_namespace prefix = record {
  name = codes "notifications";
  channel_prefix = prefix;
  options = record zero_options {
    history_size = 100;
    history_ttl = 24 * hour;
    history_recover = true;
    force_recovery = true;
    single_connection = true;
  };
}

abbrev pub presence_namespace : Bytes → Namespace
presence_namespace prefix = record {
  name = codes "presence";
  channel_prefix = prefix;
  options = record zero_options {
    presence = true;
    join_leave = true;
    force_push_join_leave = true;
  };
}

abbrev pub public_namespace : Bytes → Namespace
public_namespace prefix = record {
  name = codes "public";
  channel_prefix = prefix;
  options = record zero_options { history_size = 100; history_ttl = hour; anonymous = true };
}

abbrev pub personal_namespace : Bytes → Namespace
personal_namespace prefix = record {
  name = codes "personal";
  channel_prefix = prefix;
  options = record zero_options {
    history_size = 500;
    history_ttl = 30 * 24 * hour;
    history_recover = true;
    protected = true;
    force_recovery = true;
    single_connection = true;
  };
}
