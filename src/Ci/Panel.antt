-- ===== src/Ci/Panel.antt =====
-- ci/src/panel.rs: what the panel's client makes of the panel's answers. The requests themselves are those
-- of the crate `reqwest` and the parsing is that of `serde_json`: an answer is given as what they yield.
use npt.Prelude.{
  ℕ, List, [], ◌∷◌, ◌++◌, Option, none, some, length, Bool, true, false, ◌==◌, if◌then◌else◌,
}
use npt.Prelude.Result.{Result, ok, err}
use npt.Prelude.Text.{codes, contains, decimal}

pub record PortInfo : Type 0 where
  pub id : ℕ
  pub display_name : List ℕ
  pub ip_addr : List ℕ
  pub extra_inbound_address : Option (List (List ℕ))
  pub port_v4 : ℕ
  pub is_suspended : Bool
  pub enable_udp : Option Bool
  pub inbound_proxy_enabled : Option Bool
  pub inbound_proxy_protocol : Option (List ℕ)
  pub target_address_list : List (List ℕ)

pub record PortServer : Type 0 where
  pub server_id : ℕ
  pub server_name : List ℕ
  pub server_ip : List ℕ
  pub is_selected : Bool

-- The envelope `ApiResponse`
pub record ApiResponse (Data : Type 0) : Type 0 where
  pub success : Option Bool
  pub payload : Option Data
  pub message : Option (List ℕ)
  pub error : Option (List ℕ)

-- An answer: none at all, one with another status than success, one that does not parse, each with the text
-- of the error, or one that is read.
pub data Answer (Parsed : Type 0) : Type 0 where
  unreachable bad_status unparsable : List ℕ → Answer Parsed
  answered : Parsed → Answer Parsed

-- `trim_end_matches('/')`
abbrev trim_end : List ℕ → List ℕ
trim_end [] = []
trim_end (c ∷ cs) =
    let rest = trim_end cs in
    if c == 47 then (if length rest == 0 then [] else c ∷ rest) else c ∷ rest

-- `Panel::new` and `url`
unfoldable pub url : (base path : List ℕ) → List ℕ
url base path = trim_end base ++ path

-- `iter().find(|p| p.id == port_id)`
abbrev pub find_port : ℕ → List PortInfo → Option PortInfo
find_port port_id [] = none
find_port port_id (p ∷ ports) = if p.id == port_id then some p else find_port port_id ports

abbrev pub found : ℕ → Option PortInfo → Result (List ℕ) PortInfo
found port_id none =
    err (codes "port " ++ (decimal port_id ++ codes " not found in panel response"))
found port_id (some p) = ok p

-- `get_port`; the text of an error is the one of its answer.
unfoldable pub get_port : ℕ → Answer (List PortInfo) → Result (List ℕ) PortInfo
get_port port_id (unreachable text) = err text
get_port port_id (bad_status text) = err text
get_port port_id (unparsable text) = err text
get_port port_id (answered ports) = found port_id (find_port port_id ports)

-- The body of `port_detail_info`, which may stand in an envelope or bare.
pub record DetailAnswer : Type 0 where
  pub enveloped : Option (ApiResponse (List PortServer))
  pub bare : Option (List PortServer)
  pub parse_text : List ℕ

abbrev bare_servers : DetailAnswer → Result (List ℕ) (List PortServer)
bare_servers a = elim a.bare [ none ↦ err a.parse_text | some servers ↦ ok servers ]

abbrev from_envelope :
    DetailAnswer → Option (ApiResponse (List PortServer)) → Result (List ℕ) (List PortServer)
from_envelope a none = bare_servers a
from_envelope a (some env) = elim env.payload [ none ↦ bare_servers a | some servers ↦ ok servers ]

unfoldable pub port_servers : Answer DetailAnswer → Result (List ℕ) (List PortServer)
port_servers (unreachable text) = err text
port_servers (bad_status text) = err text
port_servers (unparsable text) = err text
port_servers (answered a) = from_envelope a a.enveloped

-- The members `collector_id` and `id` of a collector's JSON, if they are there; `none` inside is a value that
-- is no string.
pub record CollectorMeta : Type 0 where
  pub collector_id : Option (Option (List ℕ))
  pub id : Option (Option (List ℕ))

-- `m.get("collector_id").or_else(|| m.get("id")).and_then(|v| v.as_str())`
abbrev as_str : Option (Option (List ℕ)) → Option (List ℕ)
as_str none = none
as_str (some v) = v

abbrev or_else : {A : Type 0} → Option A → Option A → Option A
or_else (some a) other = some a
or_else none other = other

abbrev text_or_empty : Option (List ℕ) → List ℕ
text_or_empty none = []
text_or_empty (some t) = t

abbrev pub collector_ids_of : List CollectorMeta → List (List ℕ)
collector_ids_of [] = []
collector_ids_of (m ∷ metas) = elim (as_str (or_else m.collector_id m.id)) [
  | none ↦ collector_ids_of metas
  | some t ↦ t ∷ collector_ids_of metas
]

abbrev metas_of : Option (List CollectorMeta) → List CollectorMeta
metas_of none = []
metas_of (some ms) = ms

abbrev refused : Option Bool → Bool
refused (some false) = true
refused (some true) = false
refused none = false

unfoldable pub debug_collectors :
    Answer (ApiResponse (List CollectorMeta)) → Result (List ℕ) (List (List ℕ))
debug_collectors (unreachable text) = err text
debug_collectors (bad_status text) = err text
debug_collectors (unparsable text) = err text
debug_collectors (answered env) =
    if refused env.success
    then err (codes "debug collectors error: " ++ text_or_empty (or_else env.error env.message))
    else ok (collector_ids_of (metas_of env.payload))

-- The answer of `debug_export`: its content type, its bytes or the text of the error in reading them, and
-- the text of its body, should it be no ZIP.
pub record ExportAnswer : Type 0 where
  pub content_type : List ℕ
  pub bytes : Result (List ℕ) (List ℕ)
  pub body_text : List ℕ

unfoldable pub debug_export : Answer ExportAnswer → Result (List ℕ) (List ℕ)
debug_export (unreachable text) = err text
debug_export (bad_status text) = err text
debug_export (unparsable text) = err text
debug_export (answered a) =
    if contains (codes "application/zip") a.content_type
    then a.bytes
    else err (
        codes "debug export returned non-zip (" ++ (a.content_type ++ (codes "): " ++ a.body_text)))
