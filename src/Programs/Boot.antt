-- ===== src/Programs/Boot.antt =====
-- The programs of testsuite/examples from a reset to the start of `main`, behind `init`.
use defmt_persist.Common.{
  ℕ, ◌+◌, ◌-◌, ◌≡◌, ◌≢◌, refl, sym, ap, ◌∙◌, true, false, List, Option, none, length, arith,
}
use defmt_persist.Ring.{RingBuffer, magic}
use defmt_persist.Ring.Window.{contents}
use defmt_persist.Ring.Bounds.{IsValid}
use defmt_persist.Recover.{recover_or_reinitialize}
use defmt_persist.Recover.Outcome.{recover-IsValid}
use defmt_persist.Layout.{Target, view}
use defmt_persist.Layout.Patch.{length-view_buf}
use defmt_persist.Layout.Dump.{region_bytes, length-region_bytes}
use defmt_persist.Logger.{Features, Platform}
use defmt_persist.Init.{Statics}
use defmt_persist.Init.Outcome.{Fits, init_lem}
use defmt_persist.Testsuite.{Uart}
use defmt_persist.Programs.Steps.{Running}
use defmt_persist.Init.Restart.{init-region_bytes}
use defmt_persist.Programs.{Machine, Exit, after_init, start_main}

-- A reset that the logger is idle after, on a target whose symbols `init` accepts.
pub record Starts (p : Platform) (target : Target) (rest : List ℕ) (start end : ℕ) (s : Statics p)
    : Type 0 where
  pub ends : (rtt : p.Rtt) (bytes : List ℕ) → p.rtt_write rtt bytes ≢ none
  pub restores :
      p.cs_release (p.cs_acquire s.world.cpu).0 (p.cs_acquire s.world.cpu).1 ≡ s.world.cpu
  pub idle : s.world.depth ≡ 0
  pub first : s.called ≡ false
  pub fits : Fits target start end
  pub size : 24 + length rest ≡ target.size_of

-- What `init` makes of the memory.
abbrev pub found : Features → Target → List ℕ → RingBuffer
found features target memory = recover_or_reinitialize features.ecc (view target memory)

-- The machine behind `init`.
abbrev pub started :
    (features : Features) (p : Platform) → Target → Statics p → List ℕ → Uart → Uart → Machine p
started features p target s memory uart0 uart1 = record {
  world = record s.world { ring = found features target memory; initialized = true };
  uart0 = uart0;
  uart1 = uart1;
}

module _ (features : Features) (p : Platform) (target : Target) (rest : List ℕ) (start end : ℕ)
    (s : Statics p) (st : Starts p target rest start end s) where
  pub found-IsValid :
      (memory : List ℕ)
      → length memory ≡ end - start
      → IsValid (found features target memory)
        × ((found features target memory).header ≡ magic features.ecc)
        × (length (found features target memory).buf ≡ end - start - target.size_of)
  found-IsValid memory l =
      let buf = length-view_buf target memory in
      let (v, h, b) =
        recover-IsValid features.ecc (view target memory) (omega (arith, buf, st.fits.large))
          (omega (arith, buf, st.fits.small)) in
      (v, h, ap length b ∙ (buf ∙ ap (λ n. n - target.size_of) l))

  pub started-Running :
      (memory : List ℕ) (uart0 uart1 : Uart)
      → length memory ≡ end - start
      → Running features p target rest start end
          (end - start - target.size_of)
          (started features p target s memory uart0 uart1)
  started-Running memory uart0 uart1 l =
      let (v, header, buf) = found-IsValid memory l in
      record {
        depth = st.idle;
        initialized = refl;
        valid = v;
        header = header;
        buf = buf;
        restores = st.restores;
      }

  -- `main` starts with the ring that `init` makes of the memory.
  pub start_main-main :
      (on_panic main : Machine p → Option (Exit p)) (memory : List ℕ) (uart0 uart1 : Uart)
      → length memory ≡ end - start
      → start_main features p target rest start end on_panic main s memory uart0 uart1
        ≡ main (started features p target s memory uart0 uart1)
  unfolding start_main
  start_main-main on_panic main memory uart0 uart1 l =
      ap (after_init features p target rest start end on_panic main uart0 uart1)
        (init_lem p features target s start end memory st.first st.fits l).0

  -- `init` on what the region of a run holds at its end.
  pub found-region_bytes :
      (r : RingBuffer)
      → IsValid r
      → r.header ≡ magic features.ecc
      → length r.buf ≡ end - start - target.size_of
      → (length (region_bytes rest r) ≡ end - start)
        × (contents (found features target (region_bytes rest r)) ≡ contents r)
  found-region_bytes r v header buf =
      let l : length (region_bytes rest r) ≡ end - start =
        omega (arith, length-region_bytes rest r, buf, st.size, st.fits.large) in
      let (_, again, _) =
        init-region_bytes p features target rest start end st.size st.fits s r st.first v header
          buf in
      let same = init_lem p features target s start end (region_bytes rest r) st.first st.fits l in
      (l, ap (λ o. contents o.0.world.ring) (sym same.0) ∙ again)
