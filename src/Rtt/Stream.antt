-- ===== src/Rtt/Stream.antt =====
-- The loop of `write_all` of src/logger/rtt.rs, with a host that reads in between.
use defmt_persist.Common.{
  ℕ, ◌≤◌, ◌<◌, ◌≡◌, refl, sym, ap, ap₂, ◌∙◌, Bool, true, false, not, List, [], ◌∷◌, ◌++◌,
  if◌then◌else◌, ◌==◌, take, drop, arith, Bool-cases, ==→eq, inl, inr, append_assoc,
  take-append-drop, take-append_length,
}
use defmt_persist.Ring.Window.{distance, window, window-append, length-window}
use defmt_persist.Rtt.{
  Channel, Progress, finished, spinning, write_fn, write_loop, write_all, host_is_connected,
}
use defmt_persist.Rtt.Bounds.{IsValid, held, pending, distance-lt, ahead-distance}
use defmt_persist.Rtt.Impl.{Took, write_fn-Took}

-- The channel where the loop stands, and the bytes that have not gone into it.
abbrev pub channel : Progress → Channel
channel (finished c _) = c
channel (spinning c _) = c

abbrev pub left_over : Progress → List ℕ
left_over (finished _ bs) = bs
left_over (spinning _ bs) = bs

module _ (buf_size : ℕ) where
  -- The host moves `read` forward over bytes that are there.
  pub record HostMove (c : Channel) (r : ℕ) : Type 0 where
    pub inside : r < buf_size
    pub forward : distance buf_size c.read r ≤ held buf_size c

  -- What the host has read when it moves `read` to `r`.
  abbrev pub read_by_host : Channel → ℕ → List ℕ
  read_by_host c r = take (distance buf_size c.read r) (pending buf_size c)

  module _ (c : Channel) (r : ℕ) (v : IsValid buf_size c) (m : HostMove c r) where
    abbrev seen : Channel
    seen = record c { read = r }

    pub seen-IsValid : IsValid buf_size seen
    seen-IsValid = omega (arith, v.write_in, v.storage, v.large, v.small, m.inside)

    read_split :
        pending buf_size c
        ≡ window buf_size c.buffer c.read (distance buf_size c.read r) ++ pending buf_size seen
    read_split =
        window-append buf_size c.buffer c.read (distance buf_size c.read r) (held buf_size seen)
          (held buf_size c) v.read_in (distance-lt buf_size c.read r v.read_in m.inside v.small)
          (ground (arith, v.read_in, v.write_in, m.inside, m.forward))
        ∙ ap
            (λ j.
              window buf_size c.buffer c.read (distance buf_size c.read r)
              ++ window buf_size c.buffer j (held buf_size seen))
            (ahead-distance buf_size c.read r v.read_in m.inside v.small)

    read_by_host_lem :
        read_by_host c r ≡ window buf_size c.buffer c.read (distance buf_size c.read r)
    read_by_host_lem =
        ap (take (distance buf_size c.read r)) read_split
        ∙ (ap (λ k. take k (first ++ pending buf_size seen))
              (sym (length-window buf_size c.buffer c.read (distance buf_size c.read r)))
            ∙ take-append_length first (pending buf_size seen))
      where
        first : List ℕ
        first = window buf_size c.buffer c.read (distance buf_size c.read r)

    -- Nothing is lost between the host and the channel.
    pub read_by_host-append : read_by_host c r ++ pending buf_size seen ≡ pending buf_size c
    read_by_host-append = ap (λ t. t ++ pending buf_size seen) read_by_host_lem ∙ sym read_split

module _ (buf_size : ℕ) where
  -- The bytes that went in come out at the host, stand in the channel, or are left over.
  pub record Delivered (c : Channel) (bytes : List ℕ) (read : List ℕ) (p : Progress) : Type 0 where
    pub valid : IsValid buf_size (channel p)
    pub stream : read ++ (pending buf_size (channel p) ++ left_over p) ≡ pending buf_size c ++ bytes

  -- What one round contributes.
  module _ {c : Channel} {r n : ℕ} {bytes : List ℕ} {out : Channel × ℕ} (v : IsValid buf_size c)
      (m : HostMove buf_size c r) (took : Took buf_size (record c { read = r }) bytes n out) where
    put_in :
        read_by_host buf_size c r ++ (pending buf_size out.0 ++ drop out.1 bytes)
        ≡ pending buf_size c ++ bytes
    put_in =
        ap₂ (λ q k. mine ++ (q ++ drop k bytes)) took.appended took.count
        ∙ (ap (λ t. mine ++ t)
              (append_assoc (pending buf_size (record c { read = r })) (take n bytes) (drop n bytes)
                ∙ ap (λ t. pending buf_size (record c { read = r }) ++ t)
                    (take-append-drop n bytes))
            ∙ (sym (append_assoc mine (pending buf_size (record c { read = r })) bytes)
                ∙ ap (λ t. t ++ bytes) (read_by_host-append buf_size c r v m)))
      where
        mine : List ℕ
        mine = read_by_host buf_size c r

    round-Delivered :
        {later : List ℕ} {p : Progress}
        → Delivered out.0 (drop out.1 bytes) later p
        → Delivered c bytes (read_by_host buf_size c r ++ later) p
    round-Delivered {later} {p} d = record {
      valid = d.valid;
      stream =
          append_assoc (read_by_host buf_size c r) later
            (pending buf_size (channel p) ++ left_over p)
          ∙ (ap (λ t. read_by_host buf_size c r ++ t) d.stream ∙ put_in);
    }

    end-Delivered :
        out.1 ≡ 0 → Delivered c bytes (read_by_host buf_size c r ++ []) (finished out.0 bytes)
    end-Delivered e = round-Delivered (record {
      valid = took.valid;
      stream = ap (λ k. pending buf_size out.0 ++ drop k bytes) (sym e);
    })

  either-Delivered :
      (b : Bool) (mine h1 h2 : List ℕ) {c : Channel} {bytes : List ℕ} {p1 p2 : Progress}
      → Delivered c bytes (mine ++ h1) p1
      → Delivered c bytes (mine ++ h2) p2
      → Delivered c bytes (mine ++ (if b then h1 else h2)) (if b then p1 else p2)
  either-Delivered true mine h1 h2 d1 d2 = d1
  either-Delivered false mine h1 h2 d1 d2 = d2

module _ (buf_size : ℕ) (connected : Bool) where
  -- Every move of the host, one in each round, is as `Move` says.
  abbrev pub HostPlays : (Channel → ℕ → Type 0) → List ℕ → Channel → List ℕ → Type 0
  HostPlays Move reads c [] = Unit
  HostPlays Move [] c (b ∷ bs) = Unit
  HostPlays Move (r ∷ reads) c (b ∷ bs) =
      let (c', consumed) = write_fn buf_size connected (record c { read = r }) (b ∷ bs) in
      Move c r × HostPlays Move reads c' (drop consumed (b ∷ bs))

  -- What the host reads in the rounds that `write_loop` makes.
  pub history : List ℕ → Channel → List ℕ → List ℕ
  history reads c [] = []
  history [] c (b ∷ bs) = []
  history (r ∷ reads) c (b ∷ bs) =
      let (c', consumed) = write_fn buf_size connected (record c { read = r }) (b ∷ bs) in
      let later = history reads c' (drop consumed (b ∷ bs)) in
      read_by_host buf_size c r
      ++ (if not (consumed == 0) then later else if not connected then [] else later)

  pub write_loop-Delivered :
      (reads : List ℕ) (c : Channel) (bytes : List ℕ)
      → IsValid buf_size c
      → HostPlays (HostMove buf_size) reads c bytes
      → Delivered buf_size c bytes
          (history reads c bytes)
          (write_loop buf_size connected reads c bytes)
  unfolding write_loop history
  write_loop-Delivered reads c [] v h = record { valid = v; stream = refl }
  write_loop-Delivered [] c (b ∷ bs) v h = record { valid = v; stream = refl }
  write_loop-Delivered (r ∷ reads) c (b ∷ bs) v h =
      let seen : Channel = record c { read = r } in
      let out = write_fn buf_size connected seen (b ∷ bs) in
      let v' = seen-IsValid buf_size c r v h.0 in
      let took = write_fn-Took buf_size seen (b ∷ bs) v' connected in
      let later = write_loop-Delivered reads out.0 (drop out.1 (b ∷ bs)) took.valid h.1 in
      elim (Bool-cases (out.1 == 0)) [
        | inl none_taken ↦ rw none_taken (
            either-Delivered buf_size (not connected) _ _ _
              (end-Delivered buf_size v h.0 took (==→eq out.1 0 none_taken))
              (round-Delivered buf_size v h.0 took later))
        | inr some_taken ↦ rw some_taken (round-Delivered buf_size v h.0 took later)
      ]

-- write_all on a valid channel, with a host that only moves forward over bytes that are there:
-- what the host reads, what stands in the channel and what is given up are, one after the other,
-- what stood in the channel and the bytes written; the channel stays valid.
pub write_all-stream :
    (buf_size : ℕ) (reads : List ℕ) (c : Channel) (bytes : List ℕ)
    → IsValid buf_size c
    → HostPlays buf_size (host_is_connected c) (HostMove buf_size) reads c bytes
    → let p = write_all buf_size reads c bytes in
      IsValid buf_size (channel p)
      × (history buf_size (host_is_connected c) reads c bytes
            ++ (pending buf_size (channel p) ++ left_over p)
          ≡ pending buf_size c ++ bytes)
unfolding write_all
write_all-stream buf_size reads c bytes v h =
    let d = write_loop-Delivered buf_size (host_is_connected c) reads c bytes v h in
    (d.valid, d.stream)
