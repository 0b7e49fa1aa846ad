-- ===== src/Stream/Sinks.antt =====
-- What io.Writer documents of `Write`: the bytes taken are a prefix of those given, and all of them
-- if there is no error.
use esphome_apiclient.Common.{ℕ, ◌≤◌, ◌≡◌, none, List, ◌++◌, length, take}
use esphome_apiclient.Common.{refl, arith, take-length}
use esphome_apiclient.Stream.{Sink}

pub record Writes (k : Sink) : Type 0 where
  pub sent : k.State → List ℕ
  pub taken : List ℕ → k.State → ℕ
  pub taken_le : (bs : List ℕ) (s : k.State) → taken bs s ≤ length bs
  pub sent-write :
      (bs : List ℕ) (s : k.State) → sent (k.write bs s).1 ≡ sent s ++ take (taken bs s) bs
  pub taken_all : (bs : List ℕ) (s : k.State) → (k.write bs s).0 ≡ none → taken bs s ≡ length bs

-- A bytes.Buffer as a writer: it takes everything.
abbrev pub kept : Sink
kept = record { State = List ℕ; write = λ bs s. (none, s ++ bs) }

abbrev pub kept_writes : Writes kept
kept_writes = record {
  sent = λ s. s;
  taken = λ bs s. length bs;
  taken_le = λ bs s. omega arith;
  sent-write = λ bs s. rw take-length;
  taken_all = λ bs s h. refl;
}
