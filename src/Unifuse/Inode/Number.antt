-- ===== src/Unifuse/Inode/Number.antt =====
-- Which numbers the hash yields (crates/unifuse/src/inode.rs, `compute_inode`).
use Prim.Native.Nat.{bit_xor}
use omni_fuse.Prelude.{
  ℕ, ◌*◌, ◌%◌, ◌^◌, ◌<◌, ◌++◌, ◌≢◌, ◌≡◌, ◌↔◌, true, List, [], ◌∷◌, u64_mod, arith, Bool-cases, inl,
  inr,
}
use omni_fuse.Core.TextMerge.Utf8.{from_utf8_lossy}
use omni_fuse.FilePath.{FilePath}
use omni_fuse.Unifuse.Inode.{
  NodeKind, path_text, is_root_text, fnv, compute_inode, root_inode, fnv_prime, fnv_offset,
  kind_prefix,
}

mod_bound : (n : ℕ) → n % u64_mod < 2 ^ 64
mod_bound n = omega arith

fnv-bound : (bytes : List ℕ) (h : ℕ) → h < 2 ^ 64 → fnv bytes h < 2 ^ 64
unfolding fnv
fnv-bound [] h small = small
fnv-bound (b ∷ bytes) h small =
    fnv-bound bytes (bit_xor h b * fnv_prime % u64_mod) (mod_bound (bit_xor h b * fnv_prime))

-- An inode fits in 64 bits and is never 0, and it is the root's exactly for the paths that print as
-- the root: nothing, `/` or `.`.
pub compute_inode-valid :
    (path : FilePath) (kind : NodeKind)
    → (compute_inode path kind < 2 ^ 64)
      × (compute_inode path kind ≢ 0)
      × ((compute_inode path kind ≡ root_inode)
          ↔ (is_root_text (from_utf8_lossy (path_text path)) ≡ true))
unfolding compute_inode
compute_inode-valid path kind =
    let text = from_utf8_lossy (path_text path) in
    elim (Bool-cases (is_root_text text)) [
      | inl root ↦ ground (arith, root)
      | inr other ↦
          ground (arith, other, fnv-bound (kind_prefix kind ++ text) fnv_offset (omega arith))
    ]
