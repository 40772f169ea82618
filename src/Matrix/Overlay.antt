-- ===== src/Matrix/Overlay.antt =====
-- `OverlayMatrixNAT` of pkg/hhfab/matrix.go: the pairs that the predicates select are allowed, with
-- the translation that the mutator makes of theirs.
use fabricator.Common.{
  ℕ, ◌+◌, ◌==◌, String, str_eq, Bool, true, false, Option, none, some, List, [], ◌∷◌, Result, ok,
  err, ◌>>=◌, if◌then◌else◌,
}
use fabricator.Matrix.Types.{
  allow, TranslatedAddress, Endpoint, ConnectivityExpectation, ConnectivityMatrix, zero_port,
  no_translation,
}
use fabricator.Matrix.{add, lookup}
pub mod Laws

-- `overlayReason`; `gateway_peering` is `ReachabilityReasonGatewayPeering`.
overlay_reason : String → String → String
overlay_reason gateway_peering existing = if str_eq existing "" then gateway_peering else existing

module _ {E : Type 0} (gateway_peering : String) (src_pred dst_pred : Endpoint → Bool)
    (mutator : Endpoint → Endpoint → TranslatedAddress → Result E TranslatedAddress) where
  unfoldable pub overlaid :
      Endpoint → Endpoint → TranslatedAddress → ConnectivityMatrix → ConnectivityExpectation
  unfolding overlay_reason
  overlaid src dst nat m =
      let existing = lookup (some src) (some dst) zero_port m in
      record {
        pair = record { source = some src; destination = some dst };
        verdict = allow;
        nat = some nat;
        reason = overlay_reason gateway_peering existing.reason;
        peering = existing.peering;
        detail = "";
        proto_port = zero_port;
      }

  abbrev nat_of : Option TranslatedAddress → TranslatedAddress
  nat_of none = no_translation
  nat_of (some n) = n

  unfoldable pub overlay_pair :
      Endpoint → Endpoint → ConnectivityMatrix → Result E ConnectivityMatrix
  unfolding overlaid
  overlay_pair src dst m = do
    nat ← mutator src dst (nat_of (lookup (some src) (some dst) zero_port m).nat)
    ok (add (overlaid src dst nat m) m)

  -- The inner loop, with the number of entries that were touched.
  unfoldable pub overlay_source :
      Endpoint → List Endpoint → ConnectivityMatrix × ℕ → Result E (ConnectivityMatrix × ℕ)
  overlay_source src [] s = ok s
  overlay_source src (dst ∷ rest) (m, touched) =
      if dst_pred dst
      then (do m' ← overlay_pair src dst m; overlay_source src rest (m', touched + 1))
      else overlay_source src rest (m, touched)

  unfoldable pub overlay_all :
      List Endpoint → List Endpoint → ConnectivityMatrix × ℕ → Result E (ConnectivityMatrix × ℕ)
  overlay_all all [] s = ok s
  overlay_all all (src ∷ rest) s =
      if src_pred src
      then overlay_source src all s >>= overlay_all all rest
      else overlay_all all rest s

  pub data OverlayError : Type 0 where
    of_mutator : E → OverlayError
    no_pairs : OverlayError

  unfoldable pub finish_overlay :
      Result E (ConnectivityMatrix × ℕ) → Result OverlayError ConnectivityMatrix
  finish_overlay (err e) = err (of_mutator e)
  finish_overlay (ok (m, touched)) = if touched == 0 then err no_pairs else ok m

  -- `OverlayMatrixNAT`
  unfoldable pub overlay_matrix_nat : ConnectivityMatrix → Result OverlayError ConnectivityMatrix
  unfolding finish_overlay
  overlay_matrix_nat m = finish_overlay (overlay_all m.all_endpoints m.all_endpoints (m, 0))
