-- ===== src/Lease/Digests.antt =====
-- The configuration digest covers every frozen value.
use auto_deploy.Base.{◌≡◌, refl, List, [], ◌∷◌, ◌++◌, Bytes, arith, length}
use auto_deploy.Base.Encoding.{
  append_int, append_int-injective, length_prefixed, length_prefixed-injective,
}
use auto_deploy.Lease.Runtime.{FrozenExecution, FrozenBinding, FrozenLiteral}
use auto_deploy.Lease.Freeze.{config_parts, binding_parts, literal_parts}

binding_parts_cut :
    (bs bs' : List FrozenBinding) (rest rest' : List Bytes)
    → length bs ≡ length bs'
    → binding_parts bs ++ rest ≡ binding_parts bs' ++ rest'
    → (bs ≡ bs') × (rest ≡ rest')
unfolding binding_parts
binding_parts_cut [] [] rest rest' n h = (refl, h)
binding_parts_cut [] (b ∷ bs) rest rest' n h = absurd (omega (arith, n))
binding_parts_cut (b ∷ bs) [] rest rest' n h = absurd (omega (arith, n))
binding_parts_cut (b ∷ bs) (b' ∷ bs') rest rest' n h =
    let (same, last) = binding_parts_cut bs bs' rest rest' (omega (arith, n)) (cc h) in
    (cc (h, same), last)

literal_parts-injective :
    (ls ls' : List FrozenLiteral) → literal_parts ls ≡ literal_parts ls' → ls ≡ ls'
unfolding literal_parts
literal_parts-injective [] [] h = refl
literal_parts-injective [] (l ∷ ls) h = absurd (cc h)
literal_parts-injective (l ∷ ls) [] h = absurd (cc h)
literal_parts-injective (l ∷ ls) (l' ∷ ls') h = cc (h, literal_parts-injective ls ls' (cc h))

-- The text under the digest determines every frozen value: two configurations with the same text have
-- the same execution settings, the same secret versions and the same literals, in the same order.
pub config_parts-injective :
    (c c' : FrozenExecution) (bs bs' : List FrozenBinding) (ls ls' : List FrozenLiteral)
    → length_prefixed (config_parts c bs ls) ≡ length_prefixed (config_parts c' bs' ls')
    → (c ≡ c') × (bs ≡ bs') × (ls ≡ ls')
unfolding config_parts
config_parts-injective c c' bs bs' ls ls' h =
    let parts = length_prefixed-injective (config_parts c bs ls) (config_parts c' bs' ls') h in
    let (same, rest) =
      binding_parts_cut bs bs' (append_int (length ls) [] ∷ literal_parts ls)
        (append_int (length ls') [] ∷ literal_parts ls')
        (append_int-injective (length bs) (length bs') (cc parts)) (cc parts) in
    (
      cc (
        parts,
        append_int-injective c.container_port c'.container_port (cc parts),
        append_int-injective c.drain_seconds c'.drain_seconds (cc parts),
        append_int-injective c.health_policy_revision c'.health_policy_revision (cc parts),
        append_int-injective c.cpu_millis c'.cpu_millis (cc parts),
        append_int-injective c.memory_bytes c'.memory_bytes (cc parts),
        append_int-injective c.config_revision c'.config_revision (cc parts),
      ),
      same,
      literal_parts-injective ls ls' (cc rest),
    )
