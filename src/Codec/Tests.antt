-- ===== src/Codec/Tests.antt =====
-- codec/codec.go: a writer that keeps what it is given, and frames on it.
use esphome_apiclient.Common.{
  ℕ, zero, suc, ◌+◌, ◌≤◌, ◌≡◌, refl, ap, List, [], ◌∷◌, ◌++◌, length, take, arith, append-nil, ◌≢◌,
}
use esphome_apiclient.Stream.{ok, err, eof, connection, Arrivals, buffer}
use esphome_apiclient.Stream.Sinks.{kept, kept_writes}
use esphome_apiclient.Stream.Chunks.{Delivers}
use esphome_apiclient.Codec.{
  put_uvarint, send, read_uvarint, read_frame, write_frame, message_too_large, max_message_size,
}
use esphome_apiclient.Codec.Varint.{varint, read_uvarint-varint}
use esphome_apiclient.Codec.Frames.{frame}
use esphome_apiclient.Codec.Delivery.{read_frame-Delivers}
use esphome_apiclient.Codec.Wire.{
  write_frame_ok, write_frame-Outcome, read_frame-write_frame, read_frame-write_frame_large,
}

-- The frame of the message type 300 with the payload 7, 8, 9, in three chunks, and two bytes more.
abbrev arrivals : Arrivals
arrivals = ((0 ∷ 3 ∷ []) ∷ (172 ∷ []) ∷ (2 ∷ 7 ∷ 8 ∷ 9 ∷ 0 ∷ 1 ∷ []) ∷ [], eof)

delivered : Delivers arrivals ((0 ∷ 3 ∷ 172 ∷ 2 ∷ 7 ∷ 8 ∷ 9 ∷ []) ++ (0 ∷ 1 ∷ []), eof)
delivered = (((λ e. cc), ((λ e. cc), ((λ e. cc), tt))), refl, refl)

unfoldable zeros : ℕ → List ℕ
zeros zero = []
zeros (suc n) = 0 ∷ zeros n

length-zeros : (n : ℕ) → length (zeros n) ≡ n
unfolding zeros
length-zeros zero = refl
length-zeros (suc n) = ap suc (length-zeros n)

read_frame-write_frame_example :
    ((read_frame connection arrivals).0 ≡ ok (300, 7 ∷ 8 ∷ 9 ∷ []))
    × Delivers (read_frame connection arrivals).1 (0 ∷ 1 ∷ [], eof)
unfolding write_frame send put_uvarint
read_frame-write_frame_example =
    read_frame-write_frame kept kept_writes 300 (7 ∷ 8 ∷ 9 ∷ []) (0 ∷ 3 ∷ 172 ∷ 2 ∷ 7 ∷ 8 ∷ 9 ∷ [])
      (0 ∷ 1 ∷ []) eof [] arrivals (omega arith) (omega arith) refl refl delivered

read_frame-Delivers_example :
    ((read_frame connection arrivals).0
      ≡ (read_frame buffer (0 ∷ 3 ∷ 172 ∷ 2 ∷ 7 ∷ 8 ∷ 9 ∷ 0 ∷ 1 ∷ [], eof)).0)
    × Delivers
        (read_frame connection arrivals).1
        (read_frame buffer (0 ∷ 3 ∷ 172 ∷ 2 ∷ 7 ∷ 8 ∷ 9 ∷ 0 ∷ 1 ∷ [], eof)).1
read_frame-Delivers_example =
    read_frame-Delivers arrivals (0 ∷ 3 ∷ 172 ∷ 2 ∷ 7 ∷ 8 ∷ 9 ∷ 0 ∷ 1 ∷ [], eof) delivered

write_frame_ok_example : (write_frame kept 300 (7 ∷ 8 ∷ 9 ∷ []) []).0 ≡ ok tt
write_frame_ok_example =
    write_frame_ok kept (λ bs s. refl) 300 (7 ∷ 8 ∷ 9 ∷ []) [] (omega arith) (omega arith)

write_frame-Outcome_example :
    (n : ℕ) × (n ≤ length (frame 300 (7 ∷ [])))
    × ((write_frame kept 300 (7 ∷ []) []).1 ≡ [] ++ take n (frame 300 (7 ∷ [])))
    × ((write_frame kept 300 (7 ∷ []) []).0 ≡ ok tt → n ≡ length (frame 300 (7 ∷ [])))
write_frame-Outcome_example =
    write_frame-Outcome kept kept_writes 300 (7 ∷ []) [] (omega arith) (omega arith)

read_uvarint-varint_example :
    read_uvarint buffer (varint 10 300 ++ (5 ∷ []), eof) ≡ (ok 300, (5 ∷ [], eof))
read_uvarint-varint_example = read_uvarint-varint 300 (5 ∷ []) eof (omega arith)

followed_ne : (bs : List ℕ) (b : ℕ) → bs ++ (b ∷ []) ≢ []
followed_ne [] b e = cc
followed_ne (x ∷ bs) b e = cc

abbrev oversize : List ℕ
oversize = zeros (max_message_size + 1)

abbrev sent_oversize : List ℕ
sent_oversize = (write_frame kept 1 oversize []).1

read_frame-write_frame_large_example :
    ((read_frame connection ((sent_oversize ++ (5 ∷ [])) ∷ [], eof)).0 ≡ err message_too_large)
    × Delivers
        (read_frame connection ((sent_oversize ++ (5 ∷ [])) ∷ [], eof)).1
        (varint 10 1 ++ (oversize ++ (5 ∷ [])), eof)
read_frame-write_frame_large_example =
    read_frame-write_frame_large kept kept_writes 1 oversize sent_oversize (5 ∷ []) eof []
      ((sent_oversize ++ (5 ∷ [])) ∷ [], eof) (omega arith)
      (omega (arith, length-zeros (max_message_size + 1)))
      (omega (arith, length-zeros (max_message_size + 1)))
      (write_frame_ok kept (λ bs s. refl) 1 oversize [] (omega arith)
        (omega (arith, length-zeros (max_message_size + 1))))
      refl (((followed_ne sent_oversize 5), tt), append-nil (sent_oversize ++ (5 ∷ [])), refl)
