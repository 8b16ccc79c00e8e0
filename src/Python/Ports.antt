-- ===== src/Python/Ports.antt =====
-- PortMapping of native/P2P.c over native/Plum.c. `Plum` is what libplum has: whether it is
-- initialised, its log level, and the mappings that were created and not yet destroyed. Its answers
-- are arguments.
pub mod Queries
use text.Mathlib.Text as Text
use ffl_p2p.Prelude.{
  ℕ, Bool, true, false, not, ◌||◌, Option, none, some, List, [], ◌∷◌, String, ltb, ◌==◌,
  if◌then◌else◌, Result, ok, err,
}
use ffl_p2p.Quic.Library.{message}
use ffl_p2p.Python.Credentials.{PyError, runtime_error, value_error, raised}

pub record Plum : Type 0 where
  pub initialized : Bool
  pub log_level : ℕ
  pub library_level : ℕ
  pub live : List ℕ

-- `setFFLP2PPortMappingLogLevel`
unfoldable pub set_port_log_level : ℕ → Plum → Plum
set_port_log_level level p = record p {
  log_level = level;
  library_level = if p.initialized then level else p.library_level;
}

-- `initializeFFLP2PPortMapping`, where `started` is whether plum_init succeeds: the result is whether
-- it is PLUM_ERR_SUCCESS.
unfoldable pub initialize_plum : Bool → Plum → Plum × Bool
initialize_plum started p =
    if p.initialized
    then (p, true)
    else if started
    then (record p { initialized = true; library_level = p.log_level }, true)
    else (p, false)

-- `cleanupFFLP2PPortMapping`: plum_cleanup destroys every mapping.
unfoldable pub cleanup_plum : Plum → Plum
cleanup_plum p = if not p.initialized then p else record p { initialized = false; live = [] }

pub record Mapping : Type 0 where
  pub id : ℕ
  pub destroyed : Bool

-- Whether plum_init and the allocation succeed, and the identifier that libplum gives.
pub record PlumReply : Type 0 where
  pub started : Bool
  pub allocated : Bool
  pub created : Option ℕ

abbrev pub mapped : Plum → Option ℕ → Plum × Option Mapping
mapped p none = (p, none)
mapped p (some id) = (record p { live = id ∷ p.live }, some (record { id = id; destroyed = false }))

abbrev pub create_on : PlumReply → Plum × Bool → Plum × Option Mapping
create_on r (p, false) = (p, none)
create_on r (p, true) = if not r.allocated then (p, none) else mapped p r.created

-- `createFFLP2PPortMapping`
unfoldable pub create_mapping : ℕ → PlumReply → Plum → Plum × Option Mapping
create_mapping internal_port r p =
    if internal_port == 0 then (p, none) else create_on r (initialize_plum r.started p)

abbrev pub removed : ℕ → List ℕ → List ℕ
removed id [] = []
removed id (x ∷ xs) = if x == id then xs else x ∷ removed id xs

-- `destroyFFLP2PPortMapping`
unfoldable pub destroy_mapping : Mapping → Plum → Plum
destroy_mapping m p = if m.destroyed then p else record p { live = removed m.id p.live }

-- The Python object.
pub record PortMapping : Type 0 where
  pub mapping : Option Mapping
  pub closed : Bool

abbrev pub new_port_mapping : PortMapping
new_port_mapping = record { mapping = none; closed = false }

pub record PortArguments : Type 0 where
  pub protocol : String
  pub internal_port : ℕ

abbrev pub with_mapping :
    PortMapping → Plum × Option Mapping → PortMapping × Plum × Result PyError (Unit {0})
with_mapping o (p, none) =
    (record o { mapping = none }, p, err (runtime_error (message "port mapping creation failed")))
with_mapping o (p, some m) = (record o { mapping = some m }, p, ok tt)

-- `initializePortMapping`
unfoldable pub initialize_port_mapping :
    Option PortArguments
    → PlumReply
    → PortMapping
    → Plum
    → PortMapping × Plum × Result PyError (Unit {0})
initialize_port_mapping none r o p = (o, p, err raised)
initialize_port_mapping (some args) r o p =
    if args.internal_port == 0 || ltb 65535 args.internal_port
    then (o, p, err (value_error "internalPort out of range"))
    else if not (Text.◌==◌ args.protocol "udp" || Text.◌==◌ args.protocol "tcp")
    then (o, p, err (value_error "protocol must be 'udp' or 'tcp'"))
    else with_mapping o (create_mapping args.internal_port r p)

abbrev pub without_mapping : Option Mapping → Plum → Plum
without_mapping none p = p
without_mapping (some m) p = destroy_mapping m p

-- `closePortMapping`
unfoldable pub close_port_mapping : PortMapping → Plum → PortMapping × Plum
close_port_mapping o p = (record { mapping = none; closed = true }, without_mapping o.mapping p)

-- `deallocatePortMapping`, up to the object's memory.
unfoldable pub deallocate_port_mapping : PortMapping → Plum → PortMapping × Plum
deallocate_port_mapping o p = (record o { mapping = none }, without_mapping o.mapping p)

-- `queryPortMapping`: the identifier that libplum is asked for, or the exception before it is.
abbrev pub queried_mapping : Mapping → Result PyError ℕ
queried_mapping m =
    if m.destroyed
    then err (runtime_error (message "port mapping query failed: libplum error"))
    else ok m.id

abbrev pub queried : Bool → Option Mapping → Result PyError ℕ
queried closed none = err (runtime_error (message "mapping is closed"))
queried closed (some m) =
    if closed then err (runtime_error (message "mapping is closed")) else queried_mapping m

unfoldable pub query_port_mapping : PortMapping → Result PyError ℕ
query_port_mapping o = queried o.closed o.mapping
