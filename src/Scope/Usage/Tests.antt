-- ===== src/Scope/Usage/Tests.antt =====
-- The theorem about pkg/scope/usage_aggregator.go on the store in memory, with numbers for float64 and a time that is
-- written as one number.
use mathlib.Core.Path.{subst}
use mathlib.Core.Option.{some-injective}
use soyaos.Prelude.{
  true, ℕ, ◌+◌, ◌%◌, ◌<◌, ◌≡◌, ◌↔◌, refl, Option, none, some, List, [], ◌∷◌, ◌++◌, Bytes, codes,
  take, drop, length, take_append_length, drop_append_length, arith, bytes_lt, ltb, In,
}
use soyaos.Store.Memory.{memory}
use soyaos.Prelude.Dict.{lookup_key, set_key}
use soyaos.Scope.Usage.{
  Outside, UsagePayload, Aggregator, namespace, payload_key, payload_row_key, Payload, Sample,
  UsageQuery, HasNoBar, minute, texts, time_end, window_of, tick, bucket_key, flush, query,
  matches_query,
}
use soyaos.Store.Key.{composite_key}
use soyaos.Scope.Usage.Sums.{id_of, IsPlain}
use soyaos.Scope.Usage.Exact.{Call, tick_call, flush_call, run, tally, query_exact}

abbrev field_of : Bytes → Bytes
field_of s = length s ∷ s

abbrev rest_of : Bytes → Bytes
rest_of [] = []
rest_of (n ∷ s) = drop n s

abbrev head_of : Bytes → Bytes
head_of [] = []
head_of (n ∷ s) = take n s

abbrev marshal : UsagePayload ℕ → Option Bytes
marshal p = some (
    p.vcpu_seconds
    ∷ (p.gpu_seconds
        ∷ (p.bytes_in
            ∷ (p.bytes_out
                ∷ (field_of p.api_key_prefix
                    ++ (field_of p.agent_slug ++ (field_of p.sandbox_image ++ p.window)))))))

abbrev unmarshal : Bytes → Option (UsagePayload ℕ)
unmarshal (v ∷ g ∷ i ∷ o ∷ s) = some (record {
  api_key_prefix = head_of s;
  agent_slug = head_of (rest_of s);
  sandbox_image = head_of (rest_of (rest_of s));
  window = rest_of (rest_of (rest_of s));
  vcpu_seconds = v;
  gpu_seconds = g;
  bytes_in = i;
  bytes_out = o;
})
unmarshal _ = none

unmarshal-marshal_self :
    (p : UsagePayload ℕ) (b : Bytes) → marshal p ≡ some b → unmarshal b ≡ some (texts (λ s. s) p)
unmarshal-marshal_self p b h =
    subst (λ c. unmarshal c ≡ some p) (some-injective _ b h)
      (simp (take_append_length, drop_append_length))

abbrev format : ℕ → Bytes
format t = t ∷ []

format_bar : (t : ℕ) → t < time_end → t % minute ≡ 0 → HasNoBar (format t)
format_bar t h k = (λ e. omega arith, tt)

format_order :
    (t u : ℕ)
    → t < time_end
    → u < time_end
    → t % minute ≡ 0
    → u % minute ≡ 0
    → bytes_lt (format t) (format u) ≡ ltb t u
format_order t u h k a b = ground arith

abbrev simple : Outside
simple = record {
  Num = ℕ;
  zero_num = 0;
  add = λ a b. a + b;
  format = format;
  marshal = marshal;
  unmarshal = unmarshal;
  text = λ s. s;
  format_bar = format_bar;
  format_order = format_order;
  unmarshal-marshal = unmarshal-marshal_self;
}

abbrev sample : ℕ → ℕ → Sample simple
sample t n = record {
  api_key_prefix = codes "sk_a";
  agent_slug = codes "cut";
  sandbox_image = codes "video|base";
  at = t;
  vcpu_seconds = n;
  gpu_seconds = 0;
  bytes_in = 0;
  bytes_out = 10;
}

abbrev everything : UsageQuery
everything = record {
  api_key_prefix = [];
  agent_slug = [];
  sandbox_image = [];
  since = none;
  until = none;
}

-- Two samples of one minute, a flush, and a sample of the next minute
abbrev calls : List (Call simple)
calls =
    tick_call (sample 5 1)
    ∷ tick_call (sample 7 2)
    ∷ flush_call 60_000_000_001
    ∷ tick_call (sample 60_000_000_002 4)
    ∷ []

abbrev row : ℕ → ℕ → ℕ → Payload simple
row t n b = record {
  api_key_prefix = codes "sk_a";
  agent_slug = codes "cut";
  sandbox_image = codes "video|base";
  window = t ∷ [];
  vcpu_seconds = n;
  gpu_seconds = 0;
  bytes_in = 0;
  bytes_out = b;
}

abbrev first_row : Payload simple
first_row = row 0 3 20

abbrev second_row : Payload simple
second_row = row 60_000_000_000 4 10

abbrev row_text : Bytes
row_text =
    3
    ∷ (0
        ∷ (0
            ∷ (20
                ∷ (field_of (codes "sk_a")
                    ++ (field_of (codes "cut") ++ (field_of (codes "video|base") ++ (0 ∷ [])))))))

abbrev after : Aggregator simple memory
after = (
  (payload_key simple second_row, second_row) ∷ [],
  some ((namespace, payload_row_key simple first_row, row_text) ∷ []),
)

sample-IsPlain : (t n : ℕ) → t < time_end → IsPlain simple (sample t n)
sample-IsPlain t n h = (h, omega arith, omega arith, refl, refl, refl, refl)

-- The row of the first minute is answered from the store, with both of its samples.
query_exact_example : In {A = Payload simple} first_row (first_row ∷ second_row ∷ []) ↔ (
    (tally simple calls (id_of simple first_row) none ≡ some first_row)
    × (matches_query simple first_row everything ≡ true))
unfolding run flush window_of bucket_key lookup_key set_key composite_key query tick
query_exact_example =
    query_exact simple memory everything calls [] after (first_row ∷ second_row ∷ []) first_row
      (
        sample-IsPlain 5 1 (omega arith),
        (
          sample-IsPlain 7 2 (omega arith),
          (omega arith, (sample-IsPlain 60_000_000_002 4 (omega arith), tt)),
        ),
      )
      (omega arith, (omega arith, (omega arith, tt))) (λ k. refl) refl refl
