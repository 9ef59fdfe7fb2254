-- ===== src/Rtt/Impl.antt =====
-- `write_impl` and the two write functions of src/logger/rtt.rs: what one call takes.
use defmt_persist.Common.{
  ℕ, ◌+◌, ◌-◌, ◌^◌, ◌≤◌, ◌<◌, ◌≡◌, refl, sym, ap, ap₂, ◌∙◌, Bool, true, false, List, [], ◌∷◌, ◌++◌,
  ltb, ◌==◌, length, set, take, drop, min, length-take, take-drop-append, ==→eq, add_usize, arith,
  Bool-cases, inl, inr, append-nil,
}
use defmt_persist.Ring.Window.{ahead, window}
use defmt_persist.Ring.Copy.{fill, window-fill, length-fill, fill-append}
use defmt_persist.Rtt.{
  Channel, copy, copies, write_impl, blocking_write, nonblocking_write, write_fn,
}
use defmt_persist.Rtt.Bounds.{
  IsValid, held, pending, room, available_lem, distance-lt, ahead-distance, stored_index,
}

-- A copy that stays below the end does not go round.
copy-fill :
    (len : ℕ) (buf : List ℕ) (i : ℕ) (bs : List ℕ)
    → i + length bs ≤ len
    → copy buf i bs ≡ fill len buf i bs
copy-fill len buf i [] h = refl
copy-fill len buf i (b ∷ []) h = refl
copy-fill len buf i (b ∷ c ∷ bs) h =
    copy-fill len (set buf i b) (i + 1) (c ∷ bs) (omega arith)
    ∙ ap (λ j. fill len (set buf i b) j (c ∷ bs)) (ground arith)

-- A copy up to the end, and one of the rest to the front, are a copy that goes round.
copy_around :
    (len : ℕ) (buf bytes : List ℕ) (cursor p q n : ℕ)
    → cursor < len
    → p ≡ len - cursor
    → p + q ≡ n
    → n ≤ length bytes
    → n < len
    → copy (copy buf cursor (take p bytes)) 0 (take q (drop p bytes))
      ≡ fill len buf cursor (take n bytes)
copy_around len buf bytes cursor p q n hc hp hq hb hn =
    copy-fill len (copy buf cursor front) 0 rest (omega (arith, length-take q (drop p bytes)))
    ∙ (ap₂ (λ b j. fill len b j rest)
          (copy-fill len buf cursor front (omega (arith, length-take p bytes))) end
        ∙ (sym (fill-append len buf cursor front rest hc (omega (arith, length-take p bytes)))
            ∙ ap (fill len buf cursor) (take-drop-append p q bytes ∙ ap (λ k. take k bytes) hq)))
  where
    front : List ℕ
    front = take p bytes

    rest : List ℕ
    rest = take q (drop p bytes)

    end : 0 ≡ ahead len cursor (length (take p bytes))
    end = ground (arith, length-take p bytes)

module _ (len : ℕ) (buf : List ℕ) (bytes : List ℕ) (cursor n : ℕ) (hc : cursor < len) (hn : n < len)
    (hb : n ≤ length bytes) (hs : len < 2 ^ 31) where
  -- The copies of `write_impl` are one copy that goes round at the end.
  copies-fill : copies len buf bytes cursor n ≡ fill len buf cursor (take n bytes)
  unfolding copies
  copies-fill = elim (Bool-cases (ltb len (add_usize cursor n))) [
    | inl crosses ↦
        rw crosses (copy_around len buf bytes cursor _ _ n hc (ground arith) (ground arith) hb hn)
    | inr fits ↦
        rw fits (copy-fill len buf cursor (take n bytes) (ground (arith, length-take n bytes)))
  ]

-- What one call of a write function does to the channel: it takes the first `n` bytes.
pub record Took (buf_size : ℕ) (c : Channel) (bytes : List ℕ) (n : ℕ) (out : Channel × ℕ)
    : Type 0 where
  pub count : out.1 ≡ n
  pub valid : IsValid buf_size out.0
  pub flags : out.0.flags ≡ c.flags
  pub read : out.0.read ≡ c.read
  pub appended : pending buf_size out.0 ≡ pending buf_size c ++ take n bytes

module _ (buf_size : ℕ) (c : Channel) (bytes : List ℕ) (v : IsValid buf_size c) where
  abbrev taking : ℕ
  taking = min (length bytes) (room buf_size c)

  abbrev after : Channel
  after = record c {
    buffer = fill buf_size c.buffer c.write (take taking bytes);
    write = ahead buf_size c.write taking;
  }

  held-lt : held buf_size c < buf_size
  held-lt = distance-lt buf_size c.read c.write v.read_in v.write_in v.small

  taking-lt : taking < buf_size - held buf_size c
  taking-lt = omega (arith, held-lt)

  write_impl_lem : write_impl buf_size c bytes c.write (room buf_size c) ≡ (after, taking)
  unfolding write_impl
  write_impl_lem =
      ap₂ (λ b w. (record c { buffer = b; write = w }, taking))
        (copies-fill buf_size c.buffer bytes c.write taking v.write_in (omega (arith, taking-lt))
          (omega arith) v.small)
        (stored_index buf_size c.read c.write v.read_in v.write_in v.small taking
          (omega (arith, taking-lt)))

  length-after : length after.buffer ≡ buf_size
  length-after = length-fill buf_size c.buffer c.write (take taking bytes) ∙ v.storage

  after-IsValid : IsValid buf_size after
  after-IsValid =
      ground (arith, v.read_in, v.write_in, v.large, v.small, length-after, taking-lt, held-lt)

  held-after : held buf_size after ≡ held buf_size c + taking
  held-after = ground (arith, v.read_in, v.write_in, taking-lt, held-lt)

  pending-after : pending buf_size after ≡ pending buf_size c ++ take taking bytes
  pending-after =
      ap (window buf_size after.buffer c.read) held-after
      ∙ (ap
            (λ j.
              window buf_size (fill buf_size c.buffer j (take taking bytes)) c.read
                (held buf_size c + taking))
            (sym (ahead-distance buf_size c.read c.write v.read_in v.write_in v.small))
          ∙ window-fill buf_size c.buffer c.read (held buf_size c) (held buf_size c + taking)
              (take taking bytes) (omega (arith, v.storage)) v.read_in
              (omega (arith, length-take taking bytes)) (omega (arith, taking-lt, held-lt)))

  impl-Took : Took buf_size c bytes taking (write_impl buf_size c bytes c.write (room buf_size c))
  impl-Took = rw write_impl_lem (record {
    count = refl;
    valid = after-IsValid;
    flags = refl;
    read = refl;
    appended = pending-after;
  })

  idle-Took : taking ≡ 0 → Took buf_size c bytes taking (c, 0)
  idle-Took e = record {
    count = sym e;
    valid = v;
    flags = refl;
    read = refl;
    appended =
        sym (ap (λ k. pending buf_size c ++ take k bytes) e ∙ append-nil (pending buf_size c));
  }

  -- In either mode one call takes as many bytes as fit, from the front, and appends them.
  pub write_fn-Took :
      (connected : Bool) → Took buf_size c bytes taking (write_fn buf_size connected c bytes)
  unfolding blocking_write nonblocking_write
  write_fn-Took true =
      rw (available_lem buf_size c.read c.write v.read_in v.write_in v.small)
        (elim (Bool-cases (length bytes == 0)) [
          | inl e ↦ rw e (idle-Took (omega (arith, ==→eq (length bytes) 0 e)))
          | inr e ↦ rw e (elim (Bool-cases (room buf_size c == 0)) [
            | inl full ↦ rw full (idle-Took (omega (arith, ==→eq (room buf_size c) 0 full)))
            | inr some_room ↦ rw some_room impl-Took
          ])
        ])
  write_fn-Took false =
      rw (available_lem buf_size c.read c.write v.read_in v.write_in v.small) impl-Took
