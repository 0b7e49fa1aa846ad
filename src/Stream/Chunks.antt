-- ===== src/Stream/Chunks.antt =====
-- A connection reads as a buffer over the bytes of its chunks, however they are cut.
use esphome_apiclient.Common.{ℕ, zero, suc, ◌-◌, ◌≤◌, ◌<◌, ◌≡◌, ◌≢◌, refl, ap, ◌∙◌, sym}
use esphome_apiclient.Common.{
  List, [], ◌∷◌, ◌++◌, length, take, drop, arith, append_assoc, length-append,
}
use esphome_apiclient.Common.{append-nil, Bool-cases, leb, leb→le, leb→gt, le→leb, inl, inr}
use esphome_apiclient.Stream.{ok, err, IoError, Arrivals, Buffer, push, short_read, Source}
use esphome_apiclient.Stream.{read_byte, read_full, full_loop, buffer_byte, buffer_full}
use esphome_apiclient.Stream.{connection, buffer}

-- The bytes of the chunks in order.
abbrev pub joined : List (List ℕ) → List ℕ
joined [] = []
joined (c ∷ cs) = c ++ joined cs

-- No `Read` returns nothing without an error, which io.Reader discourages.
abbrev pub NoEmpty : List (List ℕ) → Type 0
NoEmpty [] = Unit
NoEmpty (c ∷ cs) = (c ≢ []) × NoEmpty cs

abbrev pub Delivers : Arrivals → Buffer → Type 0
Delivers (cs, e) (bs, e') = NoEmpty cs × (joined cs ≡ bs) × (e ≡ e')

-- Two readers that answer alike and stay related.
pub record Simulates (s t : Source) (R : s.State → t.State → Type 0) : Type 0 where
  pub bytes_agree :
      (a : s.State) (b : t.State)
      → R a b
      → ((s.read_byte a).0 ≡ (t.read_byte b).0) × R (s.read_byte a).1 (t.read_byte b).1
  pub fulls_agree :
      (n : ℕ) (a : s.State) (b : t.State)
      → R a b
      → ((s.read_full n a).0 ≡ (t.read_full n b).0) × R (s.read_full n a).1 (t.read_full n b).1

push-NoEmpty : (c : List ℕ) (cs : List (List ℕ)) → NoEmpty cs → NoEmpty (push c cs)
push-NoEmpty [] cs h = h
push-NoEmpty (b ∷ bs) cs h = ((λ e. cc), h)

joined-push : (c : List ℕ) (cs : List (List ℕ)) → joined (push c cs) ≡ c ++ joined cs
joined-push [] cs = refl
joined-push (b ∷ bs) cs = refl

read_byte-Delivers :
    (a : Arrivals) (b : Buffer)
    → Delivers a b
    → ((read_byte a).0 ≡ (buffer_byte b).0) × Delivers (read_byte a).1 (buffer_byte b).1
unfolding read_byte buffer_byte
read_byte-Delivers ([], e) (bs, e') (_, j, p) = rw (← j) (ap err p, (tt, refl, p))
read_byte-Delivers ([] ∷ cs, e) (bs, e') (h, j, p) = absurd (h.0 refl)
read_byte-Delivers ((b ∷ c) ∷ cs, e) (bs, e') (h, j, p) =
    rw (← j) (refl, (push-NoEmpty c cs h.1, joined-push c cs, p))

drop_shorter : (n : ℕ) (c : List ℕ) → n < length c → drop n c ≢ []
drop_shorter zero [] h e = absurd (omega arith)
drop_shorter zero (x ∷ c) h e = cc
drop_shorter (suc n) [] h e = absurd (omega arith)
drop_shorter (suc n) (x ∷ c) h e = drop_shorter n c (omega arith) e

take-append_le : (n : ℕ) (c d : List ℕ) → n ≤ length c → take n (c ++ d) ≡ take n c
take-append_le zero c d h = refl
take-append_le (suc n) [] d h = absurd (omega arith)
take-append_le (suc n) (x ∷ c) d h = ap (λ t. x ∷ t) (take-append_le n c d (omega arith))

drop-append_le : (n : ℕ) (c d : List ℕ) → n ≤ length c → drop n (c ++ d) ≡ drop n c ++ d
drop-append_le zero c d h = refl
drop-append_le (suc n) [] d h = absurd (omega arith)
drop-append_le (suc n) (x ∷ c) d h = drop-append_le n c d (omega arith)

take-append_ge :
    (n : ℕ) (c d : List ℕ) → length c ≤ n → take n (c ++ d) ≡ c ++ take (n - length c) d
take-append_ge n [] d h = ap (λ t. take t d) (omega arith)
take-append_ge zero (x ∷ c) d h = absurd (omega arith)
take-append_ge (suc n) (x ∷ c) d h =
    ap (λ t. x ∷ t) (take-append_ge n c d (omega arith) ∙ ap (λ k. c ++ take k d) (omega arith))

drop-append_ge : (n : ℕ) (c d : List ℕ) → length c ≤ n → drop n (c ++ d) ≡ drop (n - length c) d
drop-append_ge n [] d h = ap (λ t. drop t d) (omega arith)
drop-append_ge zero (x ∷ c) d h = absurd (omega arith)
drop-append_ge (suc n) (x ∷ c) d h =
    drop-append_ge n c d (omega arith) ∙ ap (λ k. drop k d) (omega arith)

-- The loop with enough bytes to come.
full_loop_enough :
    (cs : List (List ℕ)) (n : ℕ) (got : List ℕ) (e : IoError)
    → NoEmpty cs
    → n ≤ length (joined cs)
    → (rest : List (List ℕ)) × (full_loop n got cs e ≡ (ok (got ++ take n (joined cs)), (rest, e)))
      × NoEmpty rest
      × (joined rest ≡ drop n (joined cs))
unfolding full_loop
full_loop_enough cs zero got e h enough = (cs, rw append-nil refl, h, refl)
full_loop_enough [] (suc n) got e h enough = absurd (omega arith)
full_loop_enough (c ∷ cs) (suc n) got e h enough = elim (Bool-cases (leb (length c) (suc n))) [
  | inl fits ↦
      let le : length c ≤ suc n = leb→le _ _ fits in
      let (rest, r, ne, j) =
        full_loop_enough cs (suc n - length c) (got ++ c) e h.1
          (omega (arith, length-append c (joined cs))) in
      (
        rest,
        rw (fits, take-append_ge (suc n) c (joined cs) le, ← append_assoc) r,
        ne,
        j ∙ sym (drop-append_ge (suc n) c (joined cs) le),
      )
  | inr more ↦
      let gt : suc n < length c = leb→gt _ _ more in
      (
        drop (suc n) c ∷ cs,
        rw (more, take-append_le (suc n) c (joined cs) (omega arith)),
        (drop_shorter (suc n) c gt, h.1),
        sym (drop-append_le (suc n) c (joined cs) (omega arith)),
      )
]

-- The loop with too few bytes to come.
full_loop_short :
    (cs : List (List ℕ)) (n : ℕ) (got : List ℕ) (e : IoError)
    → length (joined cs) < n
    → full_loop n got cs e ≡ (err (short_read (got ++ joined cs) e), ([], e))
unfolding full_loop
full_loop_short cs zero got e h = absurd (omega arith)
full_loop_short [] (suc n) got e h = rw append-nil
full_loop_short (c ∷ cs) (suc n) got e h =
    rw (le→leb (length c) (suc n) (omega (arith, length-append c (joined cs))), ← append_assoc)
      (full_loop_short cs (suc n - length c) (got ++ c) e
        (omega (arith, length-append c (joined cs))))

read_full-Delivers :
    (n : ℕ) (a : Arrivals) (b : Buffer)
    → Delivers a b
    → ((read_full n a).0 ≡ (buffer_full n b).0) × Delivers (read_full n a).1 (buffer_full n b).1
unfolding read_full buffer_full
read_full-Delivers n (cs, e) (bs, e') (h, j, p) =
    rw (← j, ← p)
      (elim (Bool-cases (leb n (length (joined cs)))) [
        | inl enough ↦
            let (rest, r, ne, left) = full_loop_enough cs n [] e h (leb→le _ _ enough) in
            rw (enough, r) (refl, (ne, left, refl))
        | inr short ↦
            rw (short, full_loop_short cs n [] e (leb→gt _ _ short)) (refl, (tt, refl, refl))
      ])

-- A connection that delivers the bytes of a buffer answers ReadByte and io.ReadFull as the buffer.
pub connection-Simulates : Simulates connection buffer Delivers
connection-Simulates = record { bytes_agree = read_byte-Delivers; fulls_agree = read_full-Delivers }
