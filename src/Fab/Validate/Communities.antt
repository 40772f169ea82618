-- ===== src/Fab/Validate/Communities.antt =====
-- The gateway communities that `Validate` accepts.
use fabricator.Common.{
  ℕ, ◌^◌, ◌<◌, ◌≡◌, refl, String, Option, none, some, List, [], ◌∷◌, ok, All, bind-eq-ok, refuse,
}
use fabricator.Strings.{split, parse_uint}
use fabricator.Strings.Laws.{parse_uint-bound}
use fabricator.Fab.Types.{Table, Fabricator}
use fabricator.Fab.Validate.{
  FabricApi, ValidateError, check_parts, check_communities, validate, is_none, bad_priority,
  bad_community,
}
use fabricator.Fab.Validate.Laws.{validated, config-IsChecked}

-- A priority of 32 bits, and two numbers of 16 bits around a colon.
pub record IsCommunity (e : String × String) : Type 0 where
  pub priority : ℕ
  pub high : ℕ
  pub low : ℕ
  pub high_text : String
  pub low_text : String
  pub is_priority : parse_uint e.0 32 ≡ some priority
  pub is_split : split 58 e.1 ≡ high_text ∷ low_text ∷ []
  pub is_high : parse_uint high_text 16 ≡ some high
  pub is_low : parse_uint low_text 16 ≡ some low
  pub priority_fits : priority < 2 ^ 32
  pub high_fits : high < 2 ^ 16
  pub low_fits : low < 2 ^ 16

parsed : (o : Option ℕ) (x : ValidateError) → refuse (is_none o) x ≡ ok tt → (n : ℕ) × (o ≡ some n)
parsed none x h = cc
parsed (some n) x h = (n, refl)

-- The two numbers of a split text.
check_parts-ok :
    (comm : String) (parts : List String)
    → check_parts comm parts ≡ ok tt
    → (a b : String) × (m n : ℕ) × (parts ≡ a ∷ b ∷ [])
      × (parse_uint a 16 ≡ some m)
      × (parse_uint b 16 ≡ some n)
unfolding check_parts
check_parts-ok comm [] h = cc
check_parts-ok comm (a ∷ []) h = cc
check_parts-ok comm (a ∷ b ∷ []) h =
    let (_, e, k) = bind-eq-ok (refuse (is_none (parse_uint a 16)) (bad_community comm)) _ h in
    let (m, p) = parsed (parse_uint a 16) _ e in
    let (n, q) = parsed (parse_uint b 16) _ k in (a, b, m, n, refl, p, q)
check_parts-ok comm (a ∷ b ∷ c ∷ ps) h = cc

check_communities-IsCommunity : (t : Table String) → check_communities t ≡ ok tt → All IsCommunity t
unfolding check_communities
check_communities-IsCommunity [] h = tt
check_communities-IsCommunity ((prio, comm) ∷ t) h =
    let (_, e, h) = bind-eq-ok (refuse (is_none (parse_uint prio 32)) (bad_priority prio)) _ h in
    let (_, k, h) = bind-eq-ok (check_parts comm (split 58 comm)) _ h in
    let (x, p) = parsed (parse_uint prio 32) _ e in
    let (a, b, m, n, s, f, g) = check_parts-ok comm (split 58 comm) k in
    (
      record {
        priority = x;
        high = m;
        low = n;
        high_text = a;
        low_text = b;
        is_priority = p;
        is_split = s;
        is_high = f;
        is_low = g;
        priority_fits = parse_uint-bound prio 32 x p;
        high_fits = parse_uint-bound a 16 m f;
        low_fits = parse_uint-bound b 16 n g;
      },
      check_communities-IsCommunity t h,
    )

-- Every gateway community of an object that `Validate` accepts has a priority of 32 bits, and is two
-- numbers of 16 bits around one colon.
pub validate-IsCommunity :
    (api : FabricApi) (f f' : Fabricator)
    → validate api f ≡ ok f'
    → All IsCommunity f'.config.gateway.communities
validate-IsCommunity api f f' h =
    let i = config-IsChecked api f'.config (validated api f f' h).1 in
    check_communities-IsCommunity f'.config.gateway.communities i.communities
