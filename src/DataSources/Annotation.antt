-- ===== src/DataSources/Annotation.antt =====
-- The annotation that lists the architectures of a cron template.
use Prim.Native.Char.{Char, code}
use Prim.Native.String.{◌++◌}
use text.Mathlib.TextLemmas.{nil-append, cons-append, append-nil}
use ssp_operator.Architecture.{Arch, amd64, arm64, s390x, arch_string, arch_eq}
use ssp_operator.Architecture.Archs.{to_arch-arch_string}
use ssp_operator.Base.{
  String, ◌≡◌, refl, ◌∙◌, ap, arith, Bool, true, List, [], ◌∷◌, ◌==◌, map, ◌&&◌, not, All,
}
use ssp_operator.Base.Equality.{nat_eq}
use ssp_operator.Base.Text.{split, join, trim_space, trim_left, trim_right, is_space}
use ssp_operator.DataSources.Crons.{known_archs, parse_archs_annotation}

-- Whether a character does not occur.
free : Char → String → Bool
unfolding nat_eq
free sep String.[] = true
free sep (String.◌∷◌ c s) = not (code c == code sep) && free sep s

split-append :
    (sep : Char) (p s part : String) (parts : List String)
    → free sep p ≡ true
    → split sep s ≡ part ∷ parts
    → split sep (p ++ s) ≡ (p ++ part) ∷ parts
unfolding split free nat_eq
split-append sep String.[] s part parts h e = rw (nil-append s, nil-append part) e
split-append sep (String.◌∷◌ c p) s part parts h e =
    rw (cons-append c p s, cons-append c p part) (ground (arith, split-append sep p s part parts))

split-free : (sep : Char) (p : String) → free sep p ≡ true → split sep p ≡ p ∷ []
unfolding split free nat_eq
split-free sep String.[] h = refl
split-free sep (String.◌∷◌ c p) h = ground (arith, split-free sep p)

split-separator :
    (sep : Char) (s : String) → split sep ((String.◌∷◌ sep String.[]) ++ s) ≡ "" ∷ split sep s
unfolding split nat_eq
split-separator sep s = rw (cons-append sep String.[] s, nil-append s) (ground arith)

-- The parts of a list that is joined by a separator that occurs in none of them.
split-join :
    (sep : Char) (p : String) (ps : List String)
    → All (λ q. free sep q ≡ true) (p ∷ ps)
    → split sep (join (String.◌∷◌ sep String.[]) (p ∷ ps)) ≡ p ∷ ps
unfolding join
split-join sep p [] (h, hs) = split-free sep p h
split-join sep p (q ∷ ps) (h, hs) =
    split-append sep p ((String.◌∷◌ sep String.[]) ++ join (String.◌∷◌ sep String.[]) (q ∷ ps)) ""
      (q ∷ ps) h
      (split-separator sep (join (String.◌∷◌ sep String.[]) (q ∷ ps))
        ∙ ap (λ l. "" ∷ l) (split-join sep q ps hs))
    ∙ ap (λ t. t ∷ (q ∷ ps)) (append-nil p)

arch_string-free : (arch : Arch) → free "," (arch_string arch) ≡ true
unfolding free nat_eq
arch_string-free amd64 = refl
arch_string-free arm64 = refl
arch_string-free s390x = refl

trim_space-arch_string : (arch : Arch) → trim_space (arch_string arch) ≡ arch_string arch
unfolding trim_space trim_left trim_right is_space nat_eq
trim_space-arch_string amd64 = refl
trim_space-arch_string arm64 = refl
trim_space-arch_string s390x = refl

known_archs-map : (archs : List Arch) → known_archs (map arch_string archs) ≡ archs
unfolding known_archs
known_archs-map [] = refl
known_archs-map (arch ∷ archs) =
    ground (arith, trim_space-arch_string arch, to_arch-arch_string arch, known_archs-map archs)

map-free : (archs : List Arch) → All (λ q. free "," q ≡ true) (map arch_string archs)
map-free [] = tt
map-free (arch ∷ archs) = (arch_string-free arch, map-free archs)

-- The annotation that joins the names of architectures by commas, at least one, is parsed to them.
pub parse_archs_annotation-join :
    (arch : Arch) (archs : List Arch)
    → parse_archs_annotation (join "," (map arch_string (arch ∷ archs))) ≡ arch ∷ archs
unfolding parse_archs_annotation
parse_archs_annotation-join arch archs =
    ap known_archs
      (split-join "," (arch_string arch) (map arch_string archs) (map-free (arch ∷ archs)))
    ∙ known_archs-map (arch ∷ archs)
