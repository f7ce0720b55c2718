-- ===== src/ConfigClient/RoundTrip.antt =====
-- The message that the device manager sends, read by the agent of the node.

use text.Mathlib.TextLemmas.{nil-append, cons-append}
use faas_share.Common.{
  String, ℤ, pos, List, [], ◌∷◌, map, length, All, split, count_char, replace_char, show_int, ◌+++◌,
  ◌≡◌, ◌∙◌, refl, ap, arith,
}
use faas_share.Common.TextLaws.{
  count_char-append, replace_char-append, replace_char-none, split-none, split-append,
  count_char-show_int,
}
use faas_share.Kube.{Float64}
use faas_share.DeviceManager.State.{PodRequest}
use faas_share.DeviceManager.Config.{config_part, port_part, config_message}
use faas_share.ConfigClient.{Files, Disk, write_file, file_text, handle_request}

-- A text without the characters that separate parts and items.
abbrev pub Plain : String → Type 0
Plain s = (count_char b':' s ≡ 0) × (count_char b',' s ≡ 0)

-- The file of a list of lines: their number, and then each line.
abbrev pub lines_text : List String → String
lines_text [] = ""
lines_text (l ∷ ls) = l +++ "\n" +++ lines_text ls

abbrev pub lines_file : List String → String
lines_file ls = show_int (pos (length ls)) +++ "\n" +++ lines_text ls

-- The items of a message.
abbrev pub items_text : List String → String
items_text [] = ""
items_text (l ∷ ls) = l +++ "," +++ items_text ls

Plain-append : (s t : String) → Plain s → Plain t → Plain (s +++ t)
Plain-append s t (a, b) (c, d) =
    (rw (count_char-append b':' s t, a, c) refl, rw (count_char-append b',' s t, b, d) refl)

pub Plain-show_int : (x : ℤ) → Plain (show_int x)
unfolding count_char
Plain-show_int x = (
  count_char-show_int b':' x
      (refl, (refl, (refl, (refl, (refl, (refl, (refl, (refl, (refl, (refl, (refl, tt))))))))))),
  count_char-show_int b',' x
      (refl, (refl, (refl, (refl, (refl, (refl, (refl, (refl, (refl, (refl, (refl, tt))))))))))),
)

count_char-items : (ls : List String) → All Plain ls → count_char b',' (items_text ls) ≡ length ls
unfolding count_char
count_char-items [] h = refl
count_char-items (l ∷ ls) h =
    let one : count_char b',' "," ≡ 1 = refl in
    rw
      (
        count_char-append b',' l ("," +++ items_text ls),
        count_char-append b',' "," (items_text ls),
        h.0.1,
        count_char-items ls h.1,
        one,
      )
      (omega arith)

colons-items : (ls : List String) → All Plain ls → count_char b':' (items_text ls) ≡ 0
unfolding count_char
colons-items [] h = refl
colons-items (l ∷ ls) h =
    let none : count_char b':' "," ≡ 0 = refl in
    rw
      (
        count_char-append b':' l ("," +++ items_text ls),
        count_char-append b':' "," (items_text ls),
        h.0.0,
        colons-items ls h.1,
        none,
      )
      refl

replace_char-items :
    (ls : List String) → All Plain ls → replace_char b',' "\n" (items_text ls) ≡ lines_text ls
unfolding replace_char
replace_char-items [] h = refl
replace_char-items (l ∷ ls) h =
    let newline : replace_char b',' "\n" "," ≡ "\n" = refl in
    rw
      (
        replace_char-append b',' "\n" l ("," +++ items_text ls),
        replace_char-append b',' "\n" "," (items_text ls),
        replace_char-none b',' "\n" l h.0.1,
        replace_char-items ls h.1,
        newline,
      )
      refl

file_text-items : (ls : List String) → All Plain ls → file_text (items_text ls) ≡ lines_file ls
unfolding file_text
file_text-items ls h = rw (count_char-items ls h, replace_char-items ls h) refl

colon : (x : String) → ":" +++ x ≡ String.◌∷◌ ":" x
colon x = cons-append ":" "" x ∙ ap (String.◌∷◌ ":") (nil-append x)

split-message :
    (u a b : String)
    → count_char b':' u ≡ 0
    → count_char b':' a ≡ 0
    → count_char b':' b ≡ 0
    → split b':' (u +++ ":" +++ a +++ ":" +++ b) ≡ u ∷ a ∷ b ∷ []
split-message u a b hu ha hb =
    rw
      (
        colon (a +++ ":" +++ b),
        split-append ":" u (a +++ ":" +++ b) hu,
        colon b,
        split-append ":" a b ha,
        split-none b':' b hb,
      )
      refl

pub handle_request-parts :
    (disk : Disk) (u : String) (ls ms : List String) (f : Files)
    → count_char b':' u ≡ 0
    → All Plain ls
    → All Plain ms
    → handle_request disk (u +++ ":" +++ items_text ls +++ ":" +++ items_text ms) f ≡ record {
      gpu_config = write_file (disk.config_created u) u (lines_file ls) f.gpu_config;
      pod_manager_port = write_file (disk.port_created u) u (lines_file ms) f.pod_manager_port;
    }
unfolding handle_request
handle_request-parts disk u ls ms f hu hl hm =
    rw
      (
        handle_request,
        split-message u (items_text ls) (items_text ms) hu (colons-items ls hl)
            (colons-items ms hm),
        file_text-items ls hl,
        file_text-items ms hm,
      )
      refl

module _ (fl : Float64) where
  -- The line of a pod in each of the files.
  abbrev pub config_line : PodRequest fl → String
  config_line p =
      p.key
      +++ " "
      +++ fl.print p.request
      +++ " "
      +++ fl.print p.limit
      +++ " "
      +++ show_int p.memory

  abbrev pub port_line : PodRequest fl → String
  port_line p = p.key +++ " " +++ show_int p.port

  config_part-items :
      (ps : List (PodRequest fl)) → config_part fl ps ≡ items_text (map config_line ps)
  unfolding config_part
  config_part-items [] = refl
  config_part-items (p ∷ ps) = rw (config_part-items ps) refl

  port_part-items : (ps : List (PodRequest fl)) → port_part fl ps ≡ items_text (map port_line ps)
  unfolding port_part
  port_part-items [] = refl
  port_part-items (p ∷ ps) = rw (port_part-items ps) refl

  module _ (printed : (x : fl.F) → Plain (fl.print x)) where
    Plain-config_line : (p : PodRequest fl) → Plain p.key → Plain (config_line p)
    unfolding count_char
    Plain-config_line p k =
        let space : Plain " " = (refl, refl) in
        Plain-append p.key
          (" " +++ fl.print p.request +++ " " +++ fl.print p.limit +++ " " +++ show_int p.memory) k
          (Plain-append " "
            (fl.print p.request +++ " " +++ fl.print p.limit +++ " " +++ show_int p.memory) space
            (Plain-append (fl.print p.request)
              (" " +++ fl.print p.limit +++ " " +++ show_int p.memory) (printed p.request)
              (Plain-append " " (fl.print p.limit +++ " " +++ show_int p.memory) space (
                Plain-append (fl.print p.limit) (" " +++ show_int p.memory) (printed p.limit)
                  (Plain-append " " (show_int p.memory) space (Plain-show_int p.memory))))))

    Plain-port_line : (p : PodRequest fl) → Plain p.key → Plain (port_line p)
    unfolding count_char
    Plain-port_line p k =
        Plain-append p.key (" " +++ show_int p.port) k
          (Plain-append " " (show_int p.port) (refl, refl) (Plain-show_int p.port))

    All-lines :
        (line : PodRequest fl → String)
        → ((p : PodRequest fl) → Plain p.key → Plain (line p))
        → (ps : List (PodRequest fl)) → All (λ (p : PodRequest fl). Plain p.key) ps
        → All Plain (map line ps)
    All-lines line f [] h = tt
    All-lines line f (p ∷ ps) h = (f p h.0, All-lines line f ps h.1)

    -- `fmt.Sprintf("%f", x)` prints neither `:` nor `,`. Then for a UUID without `:` and keys
    -- without both, the agent turns the message of `syncConfig` into two files under the UUID:
    -- the number of pods and a line for each pod, in order, with key, request, limit and memory in
    -- one file, and key and port in the other; a file that cannot be created is left out, and
    -- other files stay.
    pub handle_request-config_message :
        (disk : Disk) (uuid : String) (ps : List (PodRequest fl)) (f : Files)
        → count_char b':' uuid ≡ 0
        → All (λ (p : PodRequest fl). Plain p.key) ps
        → handle_request disk (config_message fl uuid ps) f ≡ record {
          gpu_config =
              write_file
                (disk.config_created uuid)
                uuid
                (lines_file (map config_line ps))
                f.gpu_config;
          pod_manager_port =
              write_file
                (disk.port_created uuid)
                uuid
                (lines_file (map port_line ps))
                f.pod_manager_port;
        }
    unfolding config_message
    handle_request-config_message disk uuid ps f hu hk =
        rw (config_part-items ps, port_part-items ps)
          (handle_request-parts disk uuid (map config_line ps) (map port_line ps) f hu
            (All-lines config_line Plain-config_line ps hk)
            (All-lines port_line Plain-port_line ps hk))
