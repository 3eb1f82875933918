-- ===== src/Art/Key.antt =====
-- lib/trees/art/node.hpp: `partial_key`, `prefix_mask` and `prefix_match`. A key is a `uint64_t`, read
-- from its most significant byte; the prefix of a node is `pfx_len` bytes of `pfx` from `pfx_ofs` on.
pub mod Agree
pub mod Bytes
pub mod Digits
pub mod Prefix
use Prim.Native.Nat.{bit_xor}
use contrees_fat_node.Prelude.{ℕ, zero, suc, ◌+◌, ◌-◌, ◌*◌, ◌/◌, ◌%◌, ◌^◌, ltb, ◌==◌, if◌then◌else◌}

unfoldable pub partial_key : ℕ → ℕ → ℕ
partial_key key pos = key / 2 ^ (56 - 8 * pos) % 256

-- `pfx & prefix_mask(ofs, len)`: the bits of the `len` bytes from `ofs` on, the others zero.
unfoldable pub masked : ℕ → ℕ → ℕ → ℕ
masked pfx ofs len =
    if len == 0
    then 0
    else pfx / 2 ^ (8 * (8 - len - ofs)) % 2 ^ (8 * len) * 2 ^ (8 * (8 - len - ofs))

-- `__builtin_clzll(d)`: how many of the highest of `width` binary digits are zero.
unfoldable pub leading_zeros : ℕ → ℕ → ℕ
leading_zeros zero d = 0
leading_zeros (suc width) d =
    let rest = leading_zeros width d in if ltb d (2 ^ width) then suc rest else 0

-- `prefix_match` of a node with the three fields.
unfoldable pub prefix_match : ℕ → ℕ → ℕ → ℕ → ℕ
unfolding leading_zeros
prefix_match pfx_ofs pfx_len pfx key =
    if pfx_len == 0
    then 0
    else (let d = bit_xor key pfx * 2 ^ (8 * pfx_ofs) % 2 ^ 64 in
        if d == 0 then pfx_len else leading_zeros 64 d / 8)
