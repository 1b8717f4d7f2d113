-- ===== src/Cfg/Page.antt =====
-- page.hpp: the header of a page.
use emlabcpp.Prelude.{
  ℕ, ◌-◌, ◌≡◌, refl, Bool, Option, none, some, List, [], ◌∷◌, get_or, ◌==◌, if◌then◌else◌,
}

pub data HdrState : Type 0 where
  a b c : HdrState

-- The numbers of the enumeration; there is no other value, so `next` has no default.
unfoldable pub code : HdrState → ℕ
code a = 64
code b = 128
code c = 192

unfoldable pub next : HdrState → HdrState
next a = b
next b = c
next c = a

unfoldable pub byte_to_hdr : ℕ → Option HdrState
unfolding code
byte_to_hdr byte =
    if byte == code a
    then some a
    else if byte == code b
    then some b
    else if byte == code c
    then some c
    else none

-- `~x` of a byte is `255 - x`.
unfoldable pub hdr_to_hdr_state : List ℕ → Option HdrState
unfolding byte_to_hdr
hdr_to_hdr_state bytes =
    if get_or bytes 0 0 == 255 - get_or bytes 1 0 then byte_to_hdr (get_or bytes 0 0) else none

unfoldable pub get_hdr : HdrState → List ℕ
unfolding code
get_hdr hst = code hst ∷ (255 - code hst) ∷ []

-- What `get_hdr` writes is read as the same state, whatever follows it in the cell.
pub hdr_to_hdr_state-get_hdr :
    (hst : HdrState) (rest : List ℕ)
    → hdr_to_hdr_state (code hst ∷ (255 - code hst) ∷ rest) ≡ some hst
unfolding hdr_to_hdr_state code byte_to_hdr
hdr_to_hdr_state-get_hdr a rest = refl
hdr_to_hdr_state-get_hdr b rest = refl
hdr_to_hdr_state-get_hdr c rest = refl

-- `operator==` of the enumeration
unfoldable pub same_state : HdrState → HdrState → Bool
unfolding code
same_state x y = code x == code y
