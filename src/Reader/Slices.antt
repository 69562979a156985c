-- ===== src/Reader/Slices.antt =====
-- Parts of a file, and parts of parts.
use a5px.Prelude.{
  ℕ, ◌+◌, ◌-◌, ◌≤◌, ◌≡◌, refl, sym, ◌∙◌, arith, take, drop, length, ◌==◌, take-drop-take, drop-drop,
  take_all, Bool-cases, inl, inr, sub_u64, add_u64,
}
use a5px.RangeCache.{Bytes}
use a5px.Coalesce.{Range}
use a5px.Coalesce.Cover.{IsProper}
use a5px.Reader.{cut}

-- The bytes of `file` in `[r.start, r.end)`, cut short at the end of the file.
abbrev pub slice : Bytes → Range → Bytes
slice file r = take (r.end - r.start) (drop r.start file)

-- A range cut out of a request that covers it is the range of the file.
pub cut-slice :
    (file : Bytes) (q r : Range) (off : ℕ)
    → IsProper r
    → q.start + off ≡ r.start
    → r.end ≤ q.end
    → let g = slice file q in
      let hi = sub_u64 (add_u64 off r.end) r.start in hi ≤ length g → cut g off hi ≡ slice file r
unfolding cut
cut-slice file q r off p a b fits =
    let g = slice file q in
    let hi = sub_u64 (add_u64 off r.end) r.start in
    let reach : hi ≡ off + (r.end - r.start) = omega (arith, p.forward, p.fits) in
    let len : hi - off ≡ r.end - r.start = omega arith in
    let part : take (r.end - r.start) (drop off g) ≡ slice file r =
      take-drop-take (r.end - r.start) off (q.end - q.start) (drop q.start file)
        (omega (arith, p.forward))
      ∙ rw (drop-drop off q.start file, a) refl in
    elim (Bool-cases ((hi - off) == length g)) [
      | inr part_of ↦ rw part_of (rw len part)
      | inl whole ↦
          let start : off ≡ 0 = ground arith in
          rw whole (sym (take_all (r.end - r.start) g (ground arith)) ∙ rw start at part)
    ]
