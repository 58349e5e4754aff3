-- ===== src/Agent/Directory.antt =====
-- Reading a directory after an atomic write.
use mathlib.Core.List.{reverse, reverse-append}
use auto_deploy.Base.{
  ◌≡◌, ◌≢◌, refl, ap, ◌∙◌, true, false, List, [], ◌∷◌, ◌++◌, some, ltb, if◌then◌else◌, Bytes,
  bytes_eq, length, arith, ==_refl, ◌⊎◌,
}
use auto_deploy.Base.Strings.{has_prefix, has_suffix}
use auto_deploy.Agent.State.{
  File, content, Directory, lookup, insert, read_file, put, name_max, is_fence_file, any_fence_file,
  has_any_fence_file, file_suffix, index_file_name, WriteRun, write_file_atomic,
}

lookup-insert :
    (n m : Bytes) (f : File) (es : List (Bytes × File))
    → lookup m (insert n f es) ≡ (if bytes_eq n m then some f else lookup m es)
unfolding lookup insert
lookup-insert n m f [] = refl
lookup-insert n m f ((k, g) ∷ es) = ground (arith, lookup-insert n m f es)

pub read_file-put_self :
    (d : Directory) (n c : Bytes)
    → ltb name_max (length n) ≡ false
    → read_file (put n c d) n ≡ some (content c)
unfolding read_file
read_file-put_self d n c h = ground (arith, lookup-insert n n (content c) d.entries)

pub read_file-put_other :
    (d : Directory) (n m c : Bytes) → n ≢ m → read_file (put n c d) m ≡ read_file d m
unfolding read_file
read_file-put_other d n m c h = ground (arith, lookup-insert n m (content c) d.entries)

has_prefix-append : (p q : Bytes) → has_prefix (p ++ q) p ≡ true
unfolding has_prefix
has_prefix-append [] q = refl
has_prefix-append (c ∷ p) q = ground (arith, has_prefix-append p q, ==_refl c)

has_suffix-append : (s p : Bytes) → has_suffix (s ++ p) p ≡ true
unfolding has_suffix
has_suffix-append s p =
    ap (λ r. has_prefix r (reverse p)) (reverse-append s p)
    ∙ has_prefix-append (reverse p) (reverse s)

any_fence_file-insert :
    (n : Bytes) (f : File) (es : List (Bytes × File))
    → is_fence_file n ≡ true
    → any_fence_file (insert n f es) ≡ true
unfolding any_fence_file insert
any_fence_file-insert n f [] h = ground arith
any_fence_file-insert n f ((k, g) ∷ es) h = ground (arith, any_fence_file-insert n f es h)

-- A written fence file is seen, where the directory can be listed.
pub has_any-put :
    (s n c : Bytes) (d : Directory)
    → n ≡ s ++ file_suffix
    → n ≢ index_file_name
    → has_any_fence_file (put n c d) ≡ d.listable
unfolding has_any_fence_file is_fence_file
has_any-put s n c d e h =
    let seen =
      any_fence_file-insert n (content c) d.entries
        (ground (arith, ap (λ r. has_suffix r file_suffix) e, has_suffix-append s file_suffix)) in
    ground (arith, seen)

-- An atomic write leaves the old directory or the one with the new file, and the new one where it
-- returns no error.
pub write_file_atomic_lem :
    (w : WriteRun) (d : Directory) (n c : Bytes)
    → (write_file_atomic w d n c ≡ (d, false))
      ⊎ (((write_file_atomic w d n c).0 ≡ put n c d) × (ltb name_max (length n) ≡ false))
unfolding write_file_atomic
write_file_atomic_lem w d n c = ground arith
