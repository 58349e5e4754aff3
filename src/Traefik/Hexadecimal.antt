-- ===== src/Traefik/Hexadecimal.antt =====
-- The hexadecimal text of a digest is decoded to its bytes.
use auto_deploy.Base.{
  ℕ, ◌+◌, ◌*◌, ◌/◌, ◌%◌, ◌<◌, ◌≡◌, refl, ap, ◌∙◌, true, [], ◌∷◌, some, ltb, Bytes, arith,
}
use auto_deploy.Base.Strings.{all_bytes}
use auto_deploy.Traefik.{hex_decode, hex_encode, hex_lower, hex_value}

-- The hexadecimal text of bytes is decoded to them.
hex_value-hex_lower : (n : ℕ) → n < 16 → hex_value (hex_lower n) ≡ some n
unfolding hex_value hex_lower
hex_value-hex_lower n h = ground arith

halves : (c : ℕ) → c < 256 → (c / 16 < 16) × (c % 16 < 16) × (c / 16 * 16 + c % 16 ≡ c)
halves c h = (omega arith, omega arith, omega arith)

hex_decode_pair :
    (h l v w : ℕ) (s bs : Bytes)
    → hex_value h ≡ some v
    → hex_value l ≡ some w
    → hex_decode s ≡ some bs
    → hex_decode (h ∷ l ∷ s) ≡ some ((v * 16 + w) ∷ bs)
unfolding hex_decode
hex_decode_pair h l v w s bs p q r = ground arith

pub hex_decode-hex_encode :
    (s : Bytes) → all_bytes (λ c. ltb c 256) s ≡ true → hex_decode (hex_encode s) ≡ some s
unfolding hex_encode hex_decode all_bytes
hex_decode-hex_encode [] h = refl
hex_decode-hex_encode (c ∷ s) h =
    hex_decode_pair (hex_lower (c / 16)) (hex_lower (c % 16)) (c / 16) (c % 16) (hex_encode s) s
      (hex_value-hex_lower (c / 16) (halves c (ground arith)).0)
      (hex_value-hex_lower (c % 16) (halves c (ground arith)).1)
      (hex_decode-hex_encode s (ground arith))
    ∙ ap (λ n. some (n ∷ s)) (halves c (ground arith)).2
