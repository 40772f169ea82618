-- ===== src/Matrix/Replace.antt =====
-- `ReplaceServerEndpoints` of pkg/hhfab/endpoints.go. An endpoint that is updated in place is updated
-- wherever the matrix points to it.
use fabricator.Common.{
  ℕ, ◌==◌, String, str_eq, Bool, true, false, not, ◌&&◌, ◌||◌, Option, none, some, List, [], ◌∷◌,
  ◌++◌, map, if◌then◌else◌,
}
use fabricator.Matrix.Types.{
  ServerEndpoint, Endpoint, Pointer, EndpointPair, ByProtoPort, ConnectivityMatrix,
}
use fabricator.Matrix.{is_empty}
pub mod Laws

abbrev pub has_ref : List ℕ → ℕ → Bool
has_ref [] r = false
has_ref (x ∷ xs) r = (x == r) || has_ref xs r

abbrev pub filter_list : {A : Type 0} → (A → Bool) → List A → List A
filter_list f [] = []
filter_list f (x ∷ xs) = if f x then x ∷ filter_list f xs else filter_list f xs

-- `byVS` at a key: the last of the new endpoints of the server with it.
abbrev is_at : String → String → String → ServerEndpoint → Bool
is_at name vpc subnet s = str_eq s.name name && (str_eq s.vpc vpc && str_eq s.subnet subnet)

abbrev at_key : String → String → String → Option ServerEndpoint → Bool
at_key name vpc subnet none = false
at_key name vpc subnet (some s) = is_at name vpc subnet s

abbrev pub by_vs : String → List Endpoint → String → String → Option Endpoint → Option Endpoint
by_vs name [] vpc subnet found = found
by_vs name (ep ∷ eps) vpc subnet found =
    by_vs name eps vpc subnet (if at_key name vpc subnet ep.server then some ep else found)

-- What happens to an endpoint: left as it is, updated from a new one, or dropped.
pub data Fate : Type 0 where
  other : Fate
  updated : ServerEndpoint → Endpoint → Fate
  stale : Fate

abbrev fate_of_server : ServerEndpoint → Option Endpoint → Fate
fate_of_server s none = Fate.stale
fate_of_server s (some n) = Fate.updated s n

abbrev server_fate : String → List Endpoint → Option ServerEndpoint → Fate
server_fate name eps none = Fate.other
server_fate name eps (some s) =
    if str_eq s.name name then fate_of_server s (by_vs name eps s.vpc s.subnet none) else Fate.other

abbrev pub fate : String → List Endpoint → Endpoint → Fate
fate name eps ep = server_fate name eps ep.server

-- `ep.Server.IP = newEp.Server.IP` and `ep.Server.HostBGP = newEp.Server.HostBGP`
abbrev renewed : ServerEndpoint → Option ServerEndpoint → ServerEndpoint
renewed s none = s
renewed s (some n) = record s { ip = n.ip; host_bgp = n.host_bgp }

abbrev pub apply_fate : Endpoint → Fate → Endpoint
apply_fate ep Fate.other = ep
apply_fate ep (Fate.updated s n) = record ep { server = some (renewed s n.server) }
apply_fate ep Fate.stale = ep

-- The loop over the endpoints of the matrix.
abbrev keep_fate : Endpoint → Fate → List Endpoint → List Endpoint
keep_fate ep Fate.stale rest = rest
keep_fate ep Fate.other rest = ep ∷ rest
keep_fate ep (Fate.updated s n) rest = apply_fate ep (Fate.updated s n) ∷ rest

abbrev pub kept : (Endpoint → Fate) → List Endpoint → List Endpoint
kept f [] = []
kept f (ep ∷ eps) = keep_fate ep (f ep) (kept f eps)

abbrev stale_ref : Endpoint → Fate → List ℕ → List ℕ
stale_ref ep Fate.stale rest = ep.ref ∷ rest
stale_ref ep Fate.other rest = rest
stale_ref ep (Fate.updated s n) rest = rest

abbrev pub stale_refs : (Endpoint → Fate) → List Endpoint → List ℕ
stale_refs f [] = []
stale_refs f (ep ∷ eps) = stale_ref ep (f ep) (stale_refs f eps)

abbrev matched_ref : Fate → List ℕ → List ℕ
matched_ref Fate.stale rest = rest
matched_ref Fate.other rest = rest
matched_ref (Fate.updated s n) rest = n.ref ∷ rest

abbrev pub matched_refs : (Endpoint → Fate) → List Endpoint → List ℕ
matched_refs f [] = []
matched_refs f (ep ∷ eps) = matched_ref (f ep) (matched_refs f eps)

-- The pointers of the entries, to what was updated.
abbrev pub refs : List Endpoint → List ℕ
refs eps = map (λ ep. ep.ref) eps

abbrev pub touched : (Endpoint → Fate) → List ℕ → Pointer → Pointer
touched f all none = none
touched f all (some ep) = some (if has_ref all ep.ref then apply_fate ep (f ep) else ep)

abbrev touched_pair : (Endpoint → Fate) → List ℕ → EndpointPair → EndpointPair
touched_pair f all p = record {
  source = touched f all p.source;
  destination = touched f all p.destination;
}

abbrev pub touch_entry :
    (Endpoint → Fate) → List ℕ → EndpointPair × ByProtoPort → EndpointPair × ByProtoPort
touch_entry f all entry = (
  touched_pair f all entry.0,
  map (λ x. (x.0, record x.1 { pair = touched_pair f all x.1.pair })) entry.1,
)

-- The loop that deletes the entries of what was dropped.
abbrev pub is_stale : List ℕ → Pointer → Bool
is_stale refs none = false
is_stale refs (some ep) = has_ref refs ep.ref

abbrev pub is_live : List ℕ → EndpointPair × ByProtoPort → Bool
is_live gone entry =
    if is_stale gone entry.0.source
    then false
    else (if is_stale gone entry.0.destination then false else true)

abbrev pub live_entries :
    List ℕ → List (EndpointPair × ByProtoPort) → List (EndpointPair × ByProtoPort)
live_entries gone entries =
    if is_empty gone || is_empty entries then entries else filter_list (is_live gone) entries

unfoldable pub replace_server_endpoints :
    String → List Endpoint → ConnectivityMatrix → ConnectivityMatrix
replace_server_endpoints name eps m =
    let f = fate name eps in
    let matched = matched_refs f m.all_endpoints in
    record m {
      all_endpoints =
          kept f m.all_endpoints ++ filter_list (λ ep. not (has_ref matched ep.ref)) eps;
      entries =
          live_entries (stale_refs f m.all_endpoints)
            (map (touch_entry f (refs m.all_endpoints)) m.entries);
    }
