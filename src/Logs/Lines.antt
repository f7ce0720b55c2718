-- ===== src/Logs/Lines.antt =====
-- `Query` of log.go and the functions of logs.go that read a line. T are the times; `parse_time`
-- is `time.Parse(time.RFC3339Nano, s)`, with `none` for an error, and `seconds_since` is
-- `int64(time.Since(t).Seconds())`.
use Prim.Native.Char.{Char, code}
use text.Mathlib.TextLemmas.{nil-append, cons-append}
use faas_share.Common.{
  ℕ, ◌+◌, ◌==◌, leb, String, ℤ, pos, ltb_ℤ, Bool, true, false, not, ◌&&◌, ◌||◌, Option, none, some,
  is_empty, ◌+++◌, count_char, if◌then◌else◌, Bool-cases, ◌≡◌, refl, ap, ◌∙◌, inl, inr, arith,
}

-- `strings.SplitN(s, " ", 2)`
unfoldable pub split_once : String → String × Option String
split_once String.[] = ("", none)
split_once (String.◌∷◌ c s) =
    let (first, rest) = split_once s in
    if code c == 32 then ("", some s) else (String.◌∷◌ c first, rest)

abbrev is_nul : Char → Bool
is_nul c = code c == 0

unfoldable pub trim_nul_left : String → String
trim_nul_left String.[] = ""
trim_nul_left (String.◌∷◌ c s) =
    let rest = trim_nul_left s in if is_nul c then rest else String.◌∷◌ c s

unfoldable pub trim_nul_right : String → String
trim_nul_right String.[] = ""
trim_nul_right (String.◌∷◌ c s) =
    let rest = trim_nul_right s in if is_nul c && is_empty rest then "" else String.◌∷◌ c rest

-- `bytes.Trim(line, "\x00")`
unfoldable pub trim_nul : String → String
unfolding trim_nul_left trim_nul_right
trim_nul s = trim_nul_right (trim_nul_left s)

-- `Log` of logs.go.
pub record Log {ℓ} (T : Type ℓ) : Type ℓ where
  pub text : String
  pub namespace : String
  pub pod_name : String
  pub function_name : String
  pub timestamp : T

pub record PodLogOptions : Type 0 where
  pub follow : Bool
  pub timestamps : Bool
  pub container : String
  pub tail_lines : Option ℤ
  pub since_seconds : Option ℤ

abbrev lower : ℕ → ℕ
lower n =
    if leb 65 n && leb n 90 then n + 32 else if n == 8490 then 107 else if n == 304 then 105 else n

-- `strings.ToLower(s) == t` for a text t of ASCII characters: the Kelvin sign and the I with a dot
-- are the other characters with an ASCII character in lower case.
unfoldable pub lower_is : String → String → Bool
lower_is String.[] String.[] = true
lower_is String.[] (String.◌∷◌ d t) = false
lower_is (String.◌∷◌ c s) String.[] = false
lower_is (String.◌∷◌ c s) (String.◌∷◌ d t) = (lower (code c) == code d) && lower_is s t

-- The namespace of `Query`.
unfoldable pub query_namespace : String → String → String
unfolding lower_is
query_namespace default ns =
    if not (is_empty ns) && not (lower_is ns "kube-system") then ns else default

module _ {ℓ} {T : Type ℓ} (zero_time : T) where
  module _ (parse_time : String → Option T) where
    -- `extractTimestampAndMsg`, from the parts of the line.
    unfoldable pub read_parts : String × Option String → String × T
    read_parts (first, rest) = elim (parse_time first) [
      | none ↦ ("", zero_time)
      | some t ↦ elim rest [ none ↦ ("", t) | some message ↦ (message, t) ]
    ]

    -- `extractTimestampAndMsg`
    unfoldable pub extract_timestamp_and_msg : String → String × T
    unfolding split_once read_parts
    extract_timestamp_and_msg text = read_parts (split_once text)

    -- The entry that `podLogs` sends: its namespace is not set.
    abbrev pub entry_of : String → String → String × T → Log T
    entry_of pod container (message, t) = record {
      text = message;
      namespace = "";
      pod_name = pod;
      function_name = container;
      timestamp = t;
    }

    unfoldable pub log_of : String → String → String → Log T
    unfolding extract_timestamp_and_msg trim_nul
    log_of pod container line = entry_of pod container (extract_timestamp_and_msg (trim_nul line))

  module _ (is_zero_time : T → Bool) (seconds_since : T → ℤ) where
    -- `parseSince`
    unfoldable pub parse_since : Option T → ℤ
    parse_since none = pos 300
    parse_since (some t) = if is_zero_time t then pos 300 else seconds_since t

    -- The options of `podLogs`.
    unfoldable pub pod_log_options : String → ℤ → Option T → Bool → PodLogOptions
    unfolding parse_since
    pod_log_options container tail since follow =
        let limited = ltb_ℤ (pos 0) tail in
        let given : Bool = elim since [ none ↦ false | some t ↦ true ] in
        record {
          follow = follow;
          timestamps = true;
          container = container;
          tail_lines = if limited then some tail else none;
          since_seconds = if not limited || given then some (parse_since since) else none;
        }

split_once-append :
    (s t : String) → count_char 32 s ≡ 0 → split_once (s +++ String.◌∷◌ " " t) ≡ (s, some t)
unfolding split_once count_char
split_once-append String.[] t h = rw (nil-append (String.◌∷◌ " " t)) refl
split_once-append (String.◌∷◌ c s) t h = elim (Bool-cases (code c == 32)) [
  | inl e ↦ absurd (ground arith)
  | inr e ↦
      rw (cons-append c s (String.◌∷◌ " " t)) (rw (e, split_once-append s t (ground arith)) refl)
]

trim_nul_right-none : (s : String) → count_char 0 s ≡ 0 → trim_nul_right s ≡ s
unfolding trim_nul_right count_char
trim_nul_right-none String.[] h = refl
trim_nul_right-none (String.◌∷◌ c s) h = elim (Bool-cases (code c == 0)) [
  | inl e ↦ absurd (ground arith)
  | inr e ↦ rw (e, trim_nul_right) (ap (String.◌∷◌ c) (trim_nul_right-none s (ground arith)))
]

trim_nul-none : (s : String) → count_char 0 s ≡ 0 → trim_nul s ≡ s
unfolding trim_nul trim_nul_left count_char
trim_nul-none String.[] h = refl
trim_nul-none (String.◌∷◌ c s) h = elim (Bool-cases (code c == 0)) [
  | inl e ↦ absurd (ground arith)
  | inr e ↦ rw (e, trim_nul_left) (trim_nul_right-none (String.◌∷◌ c s) h)
]

module _ {ℓ} {T : Type ℓ} (zero_time : T) (parse_time : String → Option T) where
  -- A line that is made of the text of a time without spaces, a space and a message is read back
  -- as the time and the whole message, spaces included, if it has no NUL. The entry for it has no namespace.
  pub log_of-line :
      (stamp message pod container : String) (t : T)
      → count_char 32 stamp ≡ 0
      → count_char 0 (stamp +++ String.◌∷◌ " " message) ≡ 0
      → parse_time stamp ≡ some t
      → log_of zero_time parse_time pod container (stamp +++ String.◌∷◌ " " message) ≡ record {
        text = message;
        namespace = "";
        pod_name = pod;
        function_name = container;
        timestamp = t;
      }
  unfolding log_of extract_timestamp_and_msg read_parts
  log_of-line stamp message pod container t unspaced clean known =
      let read : read_parts zero_time parse_time (stamp, some message) ≡ (message, t) =
        rw (known, read_parts) refl in
      rw (trim_nul-none (stamp +++ String.◌∷◌ " " message) clean) (
        ap (entry_of zero_time parse_time pod container)
          (ap (read_parts zero_time parse_time) (split_once-append stamp message unspaced) ∙ read))
