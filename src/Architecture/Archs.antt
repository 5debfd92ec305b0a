-- ===== src/Architecture/Archs.antt =====
-- `GetSSPArchs`: what it returns for a specification.
use ssp_operator.Architecture.{Arch, amd64, arm64, s390x, arch_string, to_arch, to_archs, arch_eq}
use ssp_operator.Base.{String, ◌≡◌, refl, List, [], ◌∷◌, arith, inr, string_eq, map}

pub to_arch-arch_string : (arch : Arch) → to_arch (arch_string arch) ≡ inr arch
unfolding to_arch string_eq
to_arch-arch_string amd64 = refl
to_arch-arch_string arm64 = refl
to_arch-arch_string s390x = refl

pub to_arch_sound : (s : String) (arch : Arch) → to_arch s ≡ inr arch → s ≡ arch_string arch
unfolding to_arch
to_arch_sound s arch h = ground arith

abbrev pub AreKnown : List String → Type 0
AreKnown [] = Unit
AreKnown (s ∷ ss) = ((arch : Arch) × (to_arch s ≡ inr arch)) × AreKnown ss

pub to_archs_known :
    (ss : List String)
    → AreKnown ss
    → (archs : List Arch) × (to_archs ss ≡ inr archs) × (map arch_string archs ≡ ss)
unfolding to_archs
to_archs_known [] h = ([], refl, refl)
to_archs_known (s ∷ ss) ((arch, p), h) =
    let (archs, q, r) = to_archs_known ss h in
    (arch ∷ archs, ground arith, ground (arith, to_arch_sound s arch p))
