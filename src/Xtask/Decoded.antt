-- ===== src/Xtask/Decoded.antt =====
-- The loop of xtask/src/defmt.rs: it ends, and shows each frame of a stream once, in order.
use Prim.Native.String.{String, ◌++◌}
use text.Mathlib.TextLemmas.{append_assoc, append-nil, nil-append}
use defmt_persist.Common.{
  ℕ, zero, suc, ◌<◌, ◌≡◌, ◌≢◌, refl, sym, ap, ◌∙◌, List, [], ◌∷◌, ◌++◌ as ◌<>◌,
  append_assoc as list-append_assoc, length, arith, ◌⊎◌, inl, inr,
}
use defmt_persist.Xtask.Exec.{ok, unfinished}
use defmt_persist.Xtask.Defmt.{
  Decoded, frame, unexpected_eof, malformed, Decoder, format_frame, decode_loop, decode_bytes,
}

-- What defmt_decoder does with the bytes that it has received and not decoded.
pub record IsStream (d : Decoder) : Type 0 where
  pub buffered : d.Stream → List ℕ
  pub buffered-new : (table : d.Table) → buffered (d.new_stream_decoder table) ≡ []
  pub buffered-received :
      (s : d.Stream) (bytes : List ℕ) → buffered (d.received s bytes) ≡ buffered s <> bytes
  pub shrinks :
      (s s' : d.Stream) (f : d.Frame)
      → d.decode s ≡ frame f s'
      → length (buffered s') < length (buffered s)

-- An encoding that it decodes.
pub record IsEncoding (d : Decoder) (i : IsStream d) (encode : d.Frame → List ℕ) : Type 0 where
  pub decode-encode :
      (s : d.Stream) (f : d.Frame) (rest : List ℕ)
      → i.buffered s ≡ encode f <> rest
      → (s' : d.Stream) × (d.decode s ≡ frame f s') × (i.buffered s' ≡ rest)

Decoded-cases :
    {D F : Type 0} (x : Decoded D F)
    → ((f : F) × (s : D) × (x ≡ frame f s)) ⊎ ((x ≡ unexpected_eof) ⊎ (x ≡ malformed))
Decoded-cases (frame f s) = inl (f, s, refl)
Decoded-cases unexpected_eof = inr (inl refl)
Decoded-cases malformed = inr (inr refl)

module _ (d : Decoder) (i : IsStream d) where
  decode_loop-ends :
      (rounds : ℕ) (s : d.Stream) (output : String)
      → length (i.buffered s) < rounds
      → decode_loop d rounds s output ≢ unfinished
  unfolding decode_loop
  decode_loop-ends zero s output h = absurd (omega arith)
  decode_loop-ends (suc rounds) s output h = elim (Decoded-cases (d.decode s)) [
    | inl (f, s', e) ↦
        rw (e, decode_loop)
          (decode_loop-ends rounds s' (output ++ (format_frame d f ++ "\n"))
            (omega (arith, i.shrinks s s' f e)))
    | inr (inl e) ↦ rw (e, decode_loop) (λ h. ground arith)
    | inr (inr e) ↦ rw (e, decode_loop) (λ h. ground arith)
  ]

  received_bytes :
      (table : d.Table) (bytes : List ℕ)
      → i.buffered (d.received (d.new_stream_decoder table) bytes) ≡ bytes
  received_bytes table bytes =
      i.buffered-received (d.new_stream_decoder table) bytes
      ∙ ap (λ l. l <> bytes) (i.buffered-new table)

  -- The loop of decode_output is over after at most one round more than there are bytes, for any
  -- bytes, with a decoder that takes at least one byte for a frame.
  pub decode_bytes-ends :
      (table : d.Table) (bytes : List ℕ) → decode_bytes d table bytes ≢ unfinished
  unfolding decode_bytes
  decode_bytes-ends table bytes =
      decode_loop-ends (suc (length bytes)) (d.received (d.new_stream_decoder table) bytes) ""
        (omega (arith, ap length (received_bytes table bytes)))

  module _ (encode : d.Frame → List ℕ) (enc : IsEncoding d i encode) where
    -- The bytes of frames, and the text that stands for them.
    abbrev pub encode_all : List d.Frame → List ℕ
    encode_all [] = []
    encode_all (f ∷ fs) = encode f <> encode_all fs

    abbrev pub show_all : List d.Frame → String
    show_all [] = ""
    show_all (f ∷ fs) = (format_frame d f ++ "\n") ++ show_all fs

    decode_loop-encode_all :
        (fs : List d.Frame) (tail : List ℕ) (rounds : ℕ) (s : d.Stream) (output : String)
        → ((s : d.Stream) → i.buffered s ≡ tail → d.decode s ≡ unexpected_eof)
        → i.buffered s ≡ encode_all fs <> tail
        → length (i.buffered s) < rounds
        → decode_loop d rounds s output ≡ ok (output ++ show_all fs)
    unfolding decode_loop
    decode_loop-encode_all fs tail zero s output cut b h = absurd (omega arith)
    decode_loop-encode_all [] tail (suc rounds) s output cut b h =
        rw (cut s b, decode_loop) (ap ok (sym (append-nil output)))
    decode_loop-encode_all (f ∷ fs) tail (suc rounds) s output cut b h =
        let (s', e, b') =
          enc.decode-encode s f (encode_all fs <> tail)
            (b ∙ list-append_assoc (encode f) (encode_all fs) tail) in
        rw (e, decode_loop)
          (decode_loop-encode_all fs tail rounds s' (output ++ (format_frame d f ++ "\n")) cut b'
              (omega (arith, i.shrinks s s' f e))
            ∙ ap ok (append_assoc output (format_frame d f ++ "\n") (show_all fs)))

    -- The loop of decode_output on the bytes of a list of frames, and of a last one that is not
    -- complete, shows each of the complete ones once, in order, where the decoder decodes an
    -- encoded frame and asks for more bytes at the incomplete one.
    pub decode_bytes-encode_all :
        (table : d.Table) (fs : List d.Frame) (tail : List ℕ)
        → ((s : d.Stream) → i.buffered s ≡ tail → d.decode s ≡ unexpected_eof)
        → decode_bytes d table (encode_all fs <> tail) ≡ ok (show_all fs)
    unfolding decode_bytes
    decode_bytes-encode_all table fs tail cut =
        decode_loop-encode_all fs tail (suc (length (encode_all fs <> tail)))
          (d.received (d.new_stream_decoder table) (encode_all fs <> tail)) "" cut
          (received_bytes table (encode_all fs <> tail))
          (omega (arith, ap length (received_bytes table (encode_all fs <> tail))))
        ∙ ap ok (nil-append (show_all fs))
