-- ===== src/Agent/Samples.antt =====
-- A format in the place of JSON, for the tests.
use auto_deploy.Base.{
  ℕ, zero, suc, ◌≡◌, refl, ap, Bool, true, false, List, [], ◌∷◌, ◌++◌, map, Option, none, some,
  Bytes, arith,
}
use auto_deploy.Base.Encoding.{pos, negsuc}
use auto_deploy.Agent.State.{Fence, valid, Json, IsLawful}

abbrev pub flag : Bool → ℕ
flag false = 0
flag true = 1

unfoldable pub read_flag : ℕ → Bool
read_flag zero = false
read_flag (suc n) = true

abbrev pub write_fence : Fence → Bytes
write_fence f = elim (f.highest_accepted_fence) [
  | pos n ↦ flag f.reconciliation_required ∷ n ∷ f.environment_id
  | negsuc n ↦ []
]

unfoldable pub read_fence : Bytes → Option Fence
unfolding read_flag
read_fence (c ∷ n ∷ s) = some (record {
  environment_id = s;
  highest_accepted_fence = pos n;
  reconciliation_required = read_flag c;
})
read_fence _ = none

unfoldable pub write_ids : List Bytes → Bytes
write_ids [] = []
write_ids (s ∷ ss) = 0 ∷ (map suc s ++ write_ids ss)

unfoldable pub read_parts : Bytes → Bytes × List Bytes
read_parts [] = ([], [])
read_parts (zero ∷ s) = let (p, ps) = read_parts s in ([], p ∷ ps)
read_parts (suc c ∷ s) = let (p, ps) = read_parts s in (c ∷ p, ps)

read_parts-write_ids :
    (s : Bytes) (ss : List Bytes) → read_parts (map suc s ++ write_ids ss) ≡ (s, ss)
unfolding read_parts write_ids
read_parts-write_ids [] [] = refl
read_parts-write_ids [] (t ∷ ss) = ground (arith, read_parts-write_ids t ss)
read_parts-write_ids (c ∷ s) ss = ground (arith, read_parts-write_ids s ss)

read_ids-write_ids : (ss : List Bytes) → (read_parts (write_ids ss)).1 ≡ ss
unfolding read_parts write_ids
read_ids-write_ids [] = refl
read_ids-write_ids (s ∷ ss) = ground (arith, read_parts-write_ids s ss)

abbrev pub format : Json
format = record {
  marshal_fence = write_fence;
  unmarshal_fence = read_fence;
  marshal_index = write_ids;
  unmarshal_index = λ b. some (read_parts b).1;
}

read_fence-write_fence : (f : Fence) → valid f ≡ true → read_fence (write_fence f) ≡ some f
unfolding read_fence valid
read_fence-write_fence f h = ground arith

pub format-IsLawful : IsLawful format
format-IsLawful = record {
  fence_round = read_fence-write_fence;
  index_round = λ ids h. ap some (read_ids-write_ids ids);
}
