-- ===== src/React/Job/Order.antt =====
-- The order in which the chunks arrive makes no difference to the text that is shown.
use code_runner.Prelude.{
  ℕ, String, Bool, true, false, Option, none, some, List, [], ◌∷◌, map, ◌≡◌, refl, sym, ap, ◌∙◌,
  arith, eqb, eqb_iff, ◌||◌, or_default, join, Bool-cases, inl, inr, All, if◌then◌else◌,
}
use mathlib.Core.Path.{subst}
use code_runner.Contract.{OutputChunkEvent}
use code_runner.React.Job.{
  Buffer, set, get, keys, sort, reassemble, JobView, HookEvent, handle, deliver, reset,
}
use code_runner.React.Job.Sorting.{
  has, Increasing, Distinct, has-sort, sort-Increasing, Increasing-unique,
}

has-keys-set :
    (k seq : ℕ) (chunk : String) (m : Buffer)
    → has k (keys (set seq chunk m)) ≡ (eqb seq k || has k (keys m))
unfolding set keys
has-keys-set k seq chunk [] = refl
has-keys-set k seq chunk ((s, c) ∷ m) =
    let rest = has-keys-set k seq chunk m in ground (arith, rest)

Distinct-set :
    (seq : ℕ) (chunk : String) (m : Buffer) → Distinct (keys m) → Distinct (keys (set seq chunk m))
unfolding set keys
Distinct-set seq chunk [] h = (refl, tt)
Distinct-set seq chunk ((s, c) ∷ m) (apart, h) = elim (Bool-cases (eqb s seq)) [
  | inl same ↦ rw same (apart, h)
  | inr other ↦ rw other (has-keys-set s seq chunk m ∙ ground arith, Distinct-set seq chunk m h)
]

get-set :
    (k seq : ℕ) (chunk : String) (m : Buffer)
    → get k (set seq chunk m) ≡ (if eqb seq k then some chunk else get k m)
unfolding set get
get-set k seq chunk [] = refl
get-set k seq chunk ((s, c) ∷ m) = let rest = get-set k seq chunk m in ground (arith, rest)

-- A buffer that holds the chunks of one stream, `chunks n` under the number `n`.
record IsFilled (chunks : ℕ → String) (ns : List ℕ) (m : Buffer) : Type 0 where
  distinct : Distinct (keys m)
  named : (k : ℕ) → has k (keys m) ≡ has k ns
  holds : (k : ℕ) → has k ns ≡ true → get k m ≡ some (chunks k)

-- the same text, read from the stream and not from the buffer
abbrev text_of : (ℕ → String) → List ℕ → String
text_of chunks ns = join "" (map chunks ns)

looked_up :
    (chunks : ℕ → String) (m : Buffer) (ns : List ℕ)
    → All (λ k. get k m ≡ some (chunks k)) ns
    → map (λ k. or_default (get k m) "") ns ≡ map chunks ns
looked_up chunks m [] h = refl
looked_up chunks m (k ∷ ns) (h, hs) = rw h (ap (λ l. chunks k ∷ l) (looked_up chunks m ns hs))

All-of_has : (P : ℕ → Type 0) (xs : List ℕ) → ((k : ℕ) → has k xs ≡ true → P k) → All P xs
All-of_has P [] h = tt
All-of_has P (x ∷ xs) h =
    (h x (ground (arith, (eqb_iff x x).1 refl)), All-of_has P xs (λ k e. h k (ground (arith, e))))

reassemble-IsFilled :
    (chunks : ℕ → String) (ns : List ℕ) (m : Buffer)
    → IsFilled chunks ns m
    → reassemble m ≡ text_of chunks (sort (keys m))
unfolding reassemble
reassemble-IsFilled chunks ns m f = ap (join "") (
    looked_up chunks m (sort (keys m)) (
      All-of_has _ (sort (keys m))
        (λ k e. f.holds k (sym (f.named k) ∙ sym (has-sort k (keys m)) ∙ e))))

set-IsFilled :
    (chunks : ℕ → String) (ns : List ℕ) (n : ℕ) (m : Buffer)
    → IsFilled chunks ns m
    → IsFilled chunks (n ∷ ns) (set n (chunks n) m)
set-IsFilled chunks ns n m f = record {
  distinct = Distinct-set n (chunks n) m f.distinct;
  named = λ k. has-keys-set k n (chunks n) m ∙ ap (λ b. eqb n k || b) (f.named k);
  holds = λ k e. get-set k n (chunks n) m ∙ held k e;
}
  where
    held :
        (k : ℕ)
        → has k (n ∷ ns) ≡ true
        → (if eqb n k then some (chunks n) else get k m) ≡ some (chunks k)
    held k e = elim (Bool-cases (eqb n k)) [
      | inl same ↦ rw same (ap (λ j. some (chunks j)) ((eqb_iff n k).0 same))
      | inr other ↦ rw other (f.holds k (rw other at e))
    ]

pub data Stream : Type 0 where
  out err build : Stream

abbrev pub buffer_of : Stream → JobView → Buffer
buffer_of Stream.out v = v.stdout_buf
buffer_of Stream.err v = v.stderr_buf
buffer_of Stream.build v = v.compile_buf

abbrev pub shown : Stream → JobView → String
shown Stream.out v = v.stdout
shown Stream.err v = v.stderr
shown Stream.build v = v.compile_output

-- the chunk that an event brings to a stream
abbrev pub chunk_of : HookEvent → Stream → Option OutputChunkEvent
chunk_of (HookEvent.stdout e) Stream.out = some e
chunk_of (HookEvent.stdout e) Stream.err = none
chunk_of (HookEvent.stdout e) Stream.build = none
chunk_of (HookEvent.stderr e) Stream.out = none
chunk_of (HookEvent.stderr e) Stream.err = some e
chunk_of (HookEvent.stderr e) Stream.build = none
chunk_of (HookEvent.compile_output e) Stream.out = none
chunk_of (HookEvent.compile_output e) Stream.err = none
chunk_of (HookEvent.compile_output e) Stream.build = some e
chunk_of (HookEvent.stage phase) s = none
chunk_of (HookEvent.result r) s = none
chunk_of (HookEvent.artifact a) s = none
chunk_of (HookEvent.resolved active state) s = none

abbrev seqs_with : Option OutputChunkEvent → List ℕ → List ℕ
seqs_with none ns = ns
seqs_with (some c) ns = c.seq ∷ ns

-- the numbers of a stream's chunks, in the order of arrival
abbrev pub seqs : Stream → List HookEvent → List ℕ
seqs s [] = []
seqs s (e ∷ es) = seqs_with (chunk_of e s) (seqs s es)

abbrev Fits : (ℕ → String) → Option OutputChunkEvent → Type 0
Fits chunks none = Unit
Fits chunks (some c) = c.chunk ≡ chunks c.seq

-- Each chunk of the stream is the one that the worker has sent under its number.
abbrev pub AreFrom : (ℕ → String) → Stream → List HookEvent → Type 0
AreFrom chunks s es = All (λ e. Fits chunks (chunk_of e s)) es

-- what an event does to a stream, by the chunk that it brings
abbrev Step : Option OutputChunkEvent → Stream → JobView → JobView → Type 0
Step none s v w = (buffer_of s w ≡ buffer_of s v) × (shown s w ≡ shown s v)
Step (some c) s v w =
    (buffer_of s w ≡ set c.seq c.chunk (buffer_of s v))
    × (shown s w ≡ reassemble (set c.seq c.chunk (buffer_of s v)))

handle-Step : (e : HookEvent) (s : Stream) (v : JobView) → Step (chunk_of e s) s v (handle e v)
unfolding handle
handle-Step (HookEvent.stdout e) Stream.out v = (refl, refl)
handle-Step (HookEvent.stdout e) Stream.err v = (refl, refl)
handle-Step (HookEvent.stdout e) Stream.build v = (refl, refl)
handle-Step (HookEvent.stderr e) Stream.out v = (refl, refl)
handle-Step (HookEvent.stderr e) Stream.err v = (refl, refl)
handle-Step (HookEvent.stderr e) Stream.build v = (refl, refl)
handle-Step (HookEvent.compile_output e) Stream.out v = (refl, refl)
handle-Step (HookEvent.compile_output e) Stream.err v = (refl, refl)
handle-Step (HookEvent.compile_output e) Stream.build v = (refl, refl)
handle-Step (HookEvent.stage phase) Stream.out v = (refl, refl)
handle-Step (HookEvent.stage phase) Stream.err v = (refl, refl)
handle-Step (HookEvent.stage phase) Stream.build v = (refl, refl)
handle-Step (HookEvent.result r) Stream.out v = (refl, refl)
handle-Step (HookEvent.result r) Stream.err v = (refl, refl)
handle-Step (HookEvent.result r) Stream.build v = (refl, refl)
handle-Step (HookEvent.artifact a) Stream.out v = (refl, refl)
handle-Step (HookEvent.artifact a) Stream.err v = (refl, refl)
handle-Step (HookEvent.artifact a) Stream.build v = (refl, refl)
handle-Step (HookEvent.resolved false state) s v = (refl, refl)
handle-Step (HookEvent.resolved true none) s v = (refl, refl)
handle-Step (HookEvent.resolved true (some state)) Stream.out v = (refl, refl)
handle-Step (HookEvent.resolved true (some state)) Stream.err v = (refl, refl)
handle-Step (HookEvent.resolved true (some state)) Stream.build v = (refl, refl)

-- the numbers seen so far, the last one first
abbrev seen_after : Stream → List HookEvent → List ℕ → List ℕ
seen_after s [] ns = ns
seen_after s (e ∷ es) ns = seen_after s es (seqs_with (chunk_of e s) ns)

-- The buffer of a stream is filled, and its text is shown.
abbrev IsShown : (ℕ → String) → Stream → List ℕ → JobView → Type 0
IsShown chunks s ns v =
    IsFilled chunks ns (buffer_of s v) × (shown s v ≡ reassemble (buffer_of s v))

handle-IsShown :
    (chunks : ℕ → String) (s : Stream) (ns : List ℕ) (o : Option OutputChunkEvent) (v w : JobView)
    → Fits chunks o
    → Step o s v w
    → IsShown chunks s ns v
    → IsShown chunks s (seqs_with o ns) w
handle-IsShown chunks s ns none v w fits (b, t) (f, e) =
    (subst (IsFilled chunks ns) (sym b) f, t ∙ e ∙ ap reassemble (sym b))
handle-IsShown chunks s ns (some c) v w fits (b, t) (f, e) = (
  subst (IsFilled chunks (c.seq ∷ ns)) (ap (λ x. set c.seq x (buffer_of s v)) (sym fits) ∙ sym b)
      (set-IsFilled chunks ns c.seq (buffer_of s v) f),
  t ∙ ap reassemble (sym b),
)

deliver-IsShown :
    (chunks : ℕ → String) (s : Stream) (es : List HookEvent) (ns : List ℕ) (v : JobView)
    → AreFrom chunks s es
    → IsShown chunks s ns v
    → IsShown chunks s (seen_after s es ns) (deliver es v)
unfolding deliver
deliver-IsShown chunks s [] ns v from h = h
deliver-IsShown chunks s (e ∷ es) ns v (fits, from) h =
    deliver-IsShown chunks s es (seqs_with (chunk_of e s) ns) (handle e v) from
      (handle-IsShown chunks s ns (chunk_of e s) v (handle e v) fits (handle-Step e s v) h)

has-seqs_with :
    (k : ℕ) (o : Option OutputChunkEvent) (ns ms : List ℕ)
    → (has k ns || has k (seqs_with o ms)) ≡ (has k (seqs_with o ns) || has k ms)
has-seqs_with k none ns ms = refl
has-seqs_with k (some c) ns ms = ground arith

has-seen_after :
    (k : ℕ) (s : Stream) (es : List HookEvent) (ns : List ℕ)
    → has k (seen_after s es ns) ≡ (has k (seqs s es) || has k ns)
has-seen_after k s [] ns = refl
has-seen_after k s (e ∷ es) ns =
    has-seen_after k s es (seqs_with (chunk_of e s) ns)
    ∙ has-seqs_with k (chunk_of e s) (seqs s es) ns

empty-IsShown :
    (chunks : ℕ → String) (s : Stream) (channel : Option String)
    → IsShown chunks s [] (reset channel)
unfolding reset keys reassemble sort join
empty-IsShown chunks Stream.out channel =
    (record { distinct = tt; named = λ k. refl; holds = λ k e. absurd (ground (arith, e)) }, refl)
empty-IsShown chunks Stream.err channel =
    (record { distinct = tt; named = λ k. refl; holds = λ k e. absurd (ground (arith, e)) }, refl)
empty-IsShown chunks Stream.build channel =
    (record { distinct = tt; named = λ k. refl; holds = λ k e. absurd (ground (arith, e)) }, refl)

-- For each of the three streams, where one number always comes with one and the same chunk: whatever
-- events a fresh view receives, in whatever order the chunks of the stream arrive among them and
-- however often one is repeated, the text shown is the chunks that have arrived, each once and in
-- the order of their numbers.
pub deliver_in_order :
    (chunks : ℕ → String) (s : Stream) (es : List HookEvent) (ns : List ℕ) (channel : Option String)
    → AreFrom chunks s es
    → Increasing 0 ns
    → ((k : ℕ) → has k (seqs s es) ≡ has k ns)
    → shown s (deliver es (reset channel)) ≡ join "" (map chunks ns)
deliver_in_order chunks s es ns channel from up same =
    let v = deliver es (reset channel) in
    let (f, e) =
      deliver-IsShown chunks s es [] (reset channel) from (empty-IsShown chunks s channel) in
    let agree : (k : ℕ) → has k (sort (keys (buffer_of s v))) ≡ has k ns = λ k.
      has-sort k (keys (buffer_of s v))
      ∙ f.named k
      ∙ has-seen_after k s es []
      ∙ or_nothing (has k (seqs s es))
      ∙ same k in
    e
    ∙ reassemble-IsFilled chunks _ (buffer_of s v) f
    ∙ ap (text_of chunks) (
        Increasing-unique 0 (sort (keys (buffer_of s v))) ns
          (sort-Increasing (keys (buffer_of s v)) f.distinct) up agree)
  where
    or_nothing : (b : Bool) → (b || false) ≡ b
    or_nothing b = ground arith
