-- ===== src/Testsuite/Snapshot.antt =====
-- `dump_persist_region` of testsuite/src/lib.rs, and a start from the region that it sends.
use defmt_persist.Common.{
  ℕ, ◌+◌, ◌-◌, ◌≤◌, ◌≡◌, sym, ap, subst, ◌∙◌, false, List, [], ◌++◌, some, length, arith,
}
use defmt_persist.Ring.{RingBuffer, magic}
use defmt_persist.Ring.Window.{contents}
use defmt_persist.Ring.Bounds.{IsValid}
use defmt_persist.Layout.{Target}
use defmt_persist.Layout.Dump.{region_bytes}
use defmt_persist.Logger.{Features, Platform}
use defmt_persist.Init.{ok, Statics, init}
use defmt_persist.Init.Outcome.{Fits}
use defmt_persist.Init.Restart.{init-region_bytes}
use defmt_persist.Testsuite.{Uart, dump_persist_region}
use defmt_persist.Testsuite.Drain.{free, write_bytes_lem}

module _ (p : Platform) (features : Features) (target : Target) (rest : List ℕ)
    (start end : ℕ) where
  -- dump_persist_region of a valid ring with the right header, to a UART with room for each byte
  -- that has sent nothing, sends a snapshot on which the first init of another run, where it
  -- accepts the region, recovers and counts the same contents.
  dump_persist_region-init :
      24 + length rest ≡ target.size_of
      → Fits target start end
      → (s : Statics p) (r : RingBuffer) (u : Uart) → s.called ≡ false
      → IsValid r
      → r.header ≡ magic features.ecc
      → length r.buf ≡ end - start - target.size_of
      → u.sent ≡ []
      → length (region_bytes rest r) ≤ free u.flags
      → (u' : Uart) × (dump_persist_region rest r u ≡ some u')
        × (let (s', result) = init p features target s start end u'.sent in
            (result ≡ ok (record { recovered_logs_len = length (contents r) }))
            × (contents s'.world.ring ≡ contents r))
  unfolding dump_persist_region
  dump_persist_region-init size f s r u first v hm l fresh room =
      let (u', e, sent, _) = write_bytes_lem (region_bytes rest r) u 0 (omega arith) in
      let whole : region_bytes rest r ≡ u'.sent =
        sym (sent ∙ ap (λ l. l ++ region_bytes rest r) fresh) in
      let (result, kept, _) =
        init-region_bytes p features target rest start end size f s r first v hm l in
      (
        u',
        e,
        subst
            (λ memory.
              let (s', result) = init p features target s start end memory in
              (result ≡ ok (record { recovered_logs_len = length (contents r) }))
              × (contents s'.world.ring ≡ contents r))
            whole (result, kept),
      )
