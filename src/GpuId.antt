-- ===== src/GpuId.antt =====
-- `NewGPUID` of pkg/apis/kubeshare/v1/types.go, which names the GPUs that the scheduler asks for.
-- What `src.Int63` answers is a parameter: the draws, one after the other.
pub mod Returns
use Prim.Native.String
use Prim.Native.Char.{Char}
use faas_share.Common.{
  ℕ, zero, suc, ◌-◌, ◌/◌, ◌%◌, ◌==◌, ltb, String, Bool, Option, none, some, List, [], ◌∷◌, get_or,
  if◌then◌else◌,
}

abbrev pub letters : List Char
letters =
    "a" ∷ "b" ∷ "c" ∷ "d" ∷ "e" ∷ "f" ∷ "g" ∷ "h" ∷ "i" ∷ "j" ∷ "k" ∷ "l" ∷ "m" ∷ "n" ∷ "o" ∷ "p"
    ∷ "q" ∷ "r" ∷ "s" ∷ "t" ∷ "u" ∷ "v" ∷ "w" ∷ "x" ∷ "y" ∷ "z" ∷ []

-- Where the loop is: `missing` is i + 1, `text` are the letters from i + 1 on, and `drawn` counts
-- the draws.
pub record Loop : Type 0 where
  pub missing : ℕ
  pub cache : ℕ
  pub remain : ℕ
  pub drawn : ℕ
  pub text : String

module _ (draws : ℕ → ℕ) where
  -- The first `if` of a round.
  unfoldable pub refill : Loop → Loop
  refill s =
      if s.remain == 0
      then record s { cache = draws s.drawn; remain = 12; drawn = suc s.drawn }
      else s

  -- The rest of a round.
  unfoldable pub use_index : Loop → Loop
  use_index s =
      let next = record s { cache = s.cache / 32; remain = s.remain - 1 } in
      if ltb (s.cache % 32) 26
      then record next {
        missing = s.missing - 1;
        text = String.◌∷◌ (get_or letters (s.cache % 32) "a") s.text;
      }
      else next

  -- The loop, on rounds; `none` where they do not suffice.
  unfoldable pub gpuid_loop : ℕ → Loop → Option String
  unfolding refill use_index
  gpuid_loop zero s = if s.missing == 0 then some s.text else none
  gpuid_loop (suc rounds) s =
      let rest = gpuid_loop rounds (use_index (refill s)) in
      if s.missing == 0 then some s.text else rest

  -- `NewGPUID(n)`
  unfoldable pub new_gpuid : ℕ → ℕ → Option String
  unfolding gpuid_loop
  new_gpuid rounds n =
      gpuid_loop rounds (record { missing = n; cache = draws 0; remain = 12; drawn = 1; text = "" })
