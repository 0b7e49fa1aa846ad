-- ===== src/Codec/Delivery.antt =====
-- ReadFrame does not depend on how the connection cuts the bytes that it delivers.
use esphome_apiclient.Common.{ℕ, zero, suc, ◌+◌, ◌*◌, ◌%◌, ◌^◌, ◌≡◌, refl, ap, ltb, nat_eq}
use esphome_apiclient.Common.{◌&&◌, if◌then◌else◌}
use esphome_apiclient.Common.{Bool, true, false}
use mathlib.Core.Path.{subst}
use esphome_apiclient.Stream.{ok, err, buffer, Buffer, Source, Reads}
use esphome_apiclient.Stream.{Result, resume, ◌>>=◌, wrapping, wrap, connection, Arrivals}
use esphome_apiclient.Stream.Chunks.{Simulates, Delivers, connection-Simulates}
use esphome_apiclient.Codec.{uvarint_loop, read_uvarint, read_frame, overflow}

-- Two calls that give the same result from related states, and leave related states.
record Alike {S T E A : Type 0} (R : S → T → Type 0) (m : Reads S E A) (n : Reads T E A)
    : Type 0 where
  alike : (a : S) (b : T) → R a b → ((m a).0 ≡ (n b).0) × R (m a).1 (n b).1

module _ {S T E A : Type 0} (R : S → T → Type 0) where
  same_Alike : (r : Result E A) → Alike R (λ s. (r, s)) (λ t. (r, t))
  same_Alike r = record { alike = λ a b h. (refl, h) }

  if_Alike :
      (c : Bool) (m m' : Reads S E A) (n n' : Reads T E A)
      → Alike R m n
      → Alike R m' n'
      → Alike R (if c then m else m') (if c then n else n')
  if_Alike true m m' n n' h k = h
  if_Alike false m m' n n' h k = k

  wrapping-Alike :
      {F : Type 0} (w : E → F) (m : Reads S E A) (n : Reads T E A)
      → Alike R m n
      → Alike R (wrapping w m) (wrapping w n)
  wrapping-Alike w m n h = record {
    alike = λ a b r. (ap (wrap w) (h.alike a b r).0, (h.alike a b r).1);
  }

module _ {S T E A B : Type 0} (R : S → T → Type 0) (f : A → Reads S E B) (g : A → Reads T E B) where
  resume-Alike :
      (r : Result E A) → ((x : A) → Alike R (f x) (g x)) → Alike R (resume f r) (resume g r)
  resume-Alike (ok x) h = h x
  resume-Alike (err e) h = record { alike = λ a b r. (refl, r) }

  bind_Alike :
      (m : Reads S E A) (n : Reads T E A)
      → Alike R m n
      → ((x : A) → Alike R (f x) (g x))
      → Alike R (m >>= f) (n >>= g)
  bind_Alike m n h k = record {
    alike = λ a b r.
        let (same, r') = h.alike a b r in
        subst
          (λ y.
            ((resume f (m a).0 (m a).1).0 ≡ (resume g y (n b).1).0)
            × R (resume f (m a).0 (m a).1).1 (resume g y (n b).1).1)
          same ((resume-Alike (m a).0 k).alike (m a).1 (n b).1 r');
  }

module _ (s t : Source) (R : s.State → t.State → Type 0) (sim : Simulates s t R) where
  byte_Alike : Alike R s.read_byte t.read_byte
  byte_Alike = record { alike = sim.bytes_agree }

  full_Alike : (n : ℕ) → Alike R (s.read_full n) (t.read_full n)
  full_Alike n = record { alike = sim.fulls_agree n }

  uvarint_loop-Alike :
      (rounds i x sh : ℕ) → Alike R (uvarint_loop s rounds i x sh) (uvarint_loop t rounds i x sh)
  unfolding uvarint_loop
  uvarint_loop-Alike zero i x sh = same_Alike R (err overflow)
  uvarint_loop-Alike (suc rounds) i x sh =
      bind_Alike R _ _ _ _ (wrapping-Alike R _ _ _ byte_Alike) λ b.
        if_Alike R (ltb b 128) _ _ _ _
          (if_Alike R (nat_eq i 9 && ltb 1 b) _ _ _ _ (same_Alike R _) (same_Alike R _))
          (uvarint_loop-Alike rounds (i + 1) (x + b % 128 * 2 ^ sh) (sh + 7))

  read_uvarint-Alike : Alike R (read_uvarint s) (read_uvarint t)
  unfolding read_uvarint
  read_uvarint-Alike = uvarint_loop-Alike 10 0 0 0

  read_frame-Alike : Alike R (read_frame s) (read_frame t)
  unfolding read_frame
  read_frame-Alike = bind_Alike R _ _ _ _ (wrapping-Alike R _ _ _ byte_Alike) λ preamble.
      bind_Alike R _ _ _ _ (same_Alike R _) λ _.
        bind_Alike R _ _ _ _ (wrapping-Alike R _ _ _ read_uvarint-Alike) λ size.
          bind_Alike R _ _ _ _ (same_Alike R _) λ _.
            bind_Alike R _ _ _ _ (wrapping-Alike R _ _ _ read_uvarint-Alike) λ m_type.
              bind_Alike R _ _ _ _
                (if_Alike R (ltb 0 size) _ _ _ _ (wrapping-Alike R _ _ _ (full_Alike size))
                  (same_Alike R _))
                λ body. same_Alike R _

-- ReadFrame on a connection gives what it gives on a buffer of the same bytes, however the bytes are
-- cut into chunks that are not empty, and leaves the connection at the same byte.
pub read_frame-Delivers :
    (a : Arrivals) (b : Buffer)
    → Delivers a b
    → ((read_frame connection a).0 ≡ (read_frame buffer b).0)
      × Delivers (read_frame connection a).1 (read_frame buffer b).1
read_frame-Delivers = (read_frame-Alike connection buffer Delivers connection-Simulates).alike
