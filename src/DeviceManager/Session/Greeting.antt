-- ===== src/DeviceManager/Session/Greeting.antt =====
-- The line with the host name.

use text.Mathlib.TextLemmas.{nil-append, cons-append, append_assoc}
use faas_share.Common.{
  String, [], first_part, ◌∷◌, ◌+++◌, count_char, split, drop_last-append, List, ◌≡◌, refl, ◌∙◌, ap,
}
use faas_share.Common.TextLaws.{split-append, split-none, count_char-append}
use faas_share.Kube.{Float64}
use faas_share.DeviceManager.State.{State}
use faas_share.DeviceManager.Session.{World, greet, handle_host}

split-greeting :
    (h : String)
    → count_char b':' h ≡ 0
    → split b':' (("hostname:" +++ h) +++ "\n") ≡ "hostname" ∷ (h +++ "\n") ∷ []
unfolding count_char
split-greeting h plain =
    let colon : ("hostname:" +++ h) +++ "\n" ≡ "hostname" +++ String.◌∷◌ ":" (h +++ "\n") =
      append_assoc "hostname:" h "\n"
      ∙ append_assoc "hostname" ":" (h +++ "\n")
      ∙ ap (λ t. "hostname" +++ t)
          (cons-append ":" "" (h +++ "\n") ∙ ap (String.◌∷◌ ":") (nil-append (h +++ "\n"))) in
    let none : count_char b':' (h +++ "\n") ≡ 0 = count_char-append b':' h "\n" ∙ rw plain refl in
    rw (colon, split-append ":" "hostname" (h +++ "\n") refl, split-none b':' (h +++ "\n") none)
      refl

module _ (fl : Float64) (world : World) where
  -- A host name without a colon is read back.
  pub greet-hostname :
      (h conn : String) (rest : List String) (s : State fl)
      → count_char b':' h ≡ 0
      → greet fl world (("hostname:" +++ h) +++ "\n") conn rest s
        ≡ handle_host fl world h conn (first_part (split b':' conn)) rest s
  unfolding greet
  greet-hostname h conn rest s plain =
      rw (split-greeting h plain, greet, drop_last-append h "\n") refl
