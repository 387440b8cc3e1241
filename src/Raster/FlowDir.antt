-- ===== src/Raster/FlowDir.antt =====
-- D8 flow directions and their three byte encodings (crates/core/src/algo/flow_dir.rs). A `u8` is a
-- number below 256. The variants of `FlowDirEncoding`, a type of the hfx crate, are those that
-- `from_encoded` matches on.
pub mod Laws
use package.watershed_delineation.Prelude.{
  ℕ, ◌-◌, Option, none, some, List, [], ◌∷◌, Result, ok, err, ltb, leb, ◌==◌, if◌then◌else◌,
}
use package.watershed_delineation.Prelude.Int.{ℤ, pos, negsuc}

pub data FlowDir : Type 0 where
  east southeast south southwest west northwest north northeast : FlowDir

pub data FlowDirEncoding : Type 0 where
  esri taudem grass : FlowDirEncoding

pub data InvalidFlowDir : Type 0 where
  invalid_encoding : ℕ → InvalidFlowDir

abbrev pub Decoded : Type 0
Decoded = Result (Option FlowDir) InvalidFlowDir

-- `FlowDir::ALL`.
abbrev pub all : List FlowDir
all = east ∷ southeast ∷ south ∷ southwest ∷ west ∷ northwest ∷ north ∷ northeast ∷ []

unfoldable pub to_esri : FlowDir → ℕ
to_esri east = 1
to_esri southeast = 2
to_esri south = 4
to_esri southwest = 8
to_esri west = 16
to_esri northwest = 32
to_esri north = 64
to_esri northeast = 128

unfoldable pub from_esri : ℕ → Decoded
from_esri v =
    if v == 0
    then ok none
    else if v == 1
    then ok (some east)
    else if v == 2
    then ok (some southeast)
    else if v == 4
    then ok (some south)
    else if v == 8
    then ok (some southwest)
    else if v == 16
    then ok (some west)
    else if v == 32
    then ok (some northwest)
    else if v == 64
    then ok (some north)
    else if v == 128
    then ok (some northeast)
    else err (invalid_encoding v)

unfoldable pub to_taudem : FlowDir → ℕ
to_taudem east = 1
to_taudem northeast = 2
to_taudem north = 3
to_taudem northwest = 4
to_taudem west = 5
to_taudem southwest = 6
to_taudem south = 7
to_taudem southeast = 8

unfoldable pub from_taudem : ℕ → Decoded
from_taudem v =
    if v == 0
    then ok none
    else if v == 1
    then ok (some east)
    else if v == 2
    then ok (some northeast)
    else if v == 3
    then ok (some north)
    else if v == 4
    then ok (some northwest)
    else if v == 5
    then ok (some west)
    else if v == 6
    then ok (some southwest)
    else if v == 7
    then ok (some south)
    else if v == 8
    then ok (some southeast)
    else err (invalid_encoding v)

-- `value as i8` and `value as u8`.
abbrev pub as_i8 : ℕ → ℤ
as_i8 v = if ltb v 128 then pos v else negsuc (255 - v)

abbrev pub as_u8 : ℤ → ℕ
as_u8 (pos n) = n
as_u8 (negsuc n) = 255 - n

-- The arm `-8..=0` takes `pos 0` and `negsuc 0` to `negsuc 7`.
unfoldable pub from_grass : ℤ → Decoded
from_grass (negsuc n) = if leb n 7 then ok none else err (invalid_encoding (as_u8 (negsuc n)))
from_grass (pos v) =
    if v == 0
    then ok none
    else if v == 1
    then ok (some northeast)
    else if v == 2
    then ok (some north)
    else if v == 3
    then ok (some northwest)
    else if v == 4
    then ok (some west)
    else if v == 5
    then ok (some southwest)
    else if v == 6
    then ok (some south)
    else if v == 7
    then ok (some southeast)
    else if v == 8
    then ok (some east)
    else err (invalid_encoding (as_u8 (pos v)))

unfoldable pub from_encoded : ℕ → FlowDirEncoding → Decoded
unfolding from_esri from_taudem from_grass
from_encoded value esri = from_esri value
from_encoded value taudem = from_taudem value
from_encoded value grass = from_grass (as_i8 value)

to_grass : FlowDir → ℕ
to_grass northeast = 1
to_grass north = 2
to_grass northwest = 3
to_grass west = 4
to_grass southwest = 5
to_grass south = 6
to_grass southeast = 7
to_grass east = 8

unfoldable pub to_encoded : FlowDir → FlowDirEncoding → ℕ
unfolding to_esri to_taudem to_grass
to_encoded d esri = to_esri d
to_encoded d taudem = to_taudem d
to_encoded d grass = to_grass d

-- The column offset, and the row offset: rows grow southwards.
abbrev pub dx : FlowDir → ℤ
dx east = pos 1
dx northeast = pos 1
dx southeast = pos 1
dx west = negsuc 0
dx northwest = negsuc 0
dx southwest = negsuc 0
dx north = pos 0
dx south = pos 0

abbrev pub dy : FlowDir → ℤ
dy north = negsuc 0
dy northwest = negsuc 0
dy northeast = negsuc 0
dy south = pos 1
dy southwest = pos 1
dy southeast = pos 1
dy east = pos 0
dy west = pos 0

abbrev pub opposite : FlowDir → FlowDir
opposite east = west
opposite southeast = northwest
opposite south = north
opposite southwest = northeast
opposite west = east
opposite northwest = southeast
opposite north = south
opposite northeast = southwest

-- `TryFrom<u8>`.
unfoldable pub try_from : ℕ → Result FlowDir InvalidFlowDir
try_from v =
    if v == 1
    then ok east
    else if v == 2
    then ok southeast
    else if v == 4
    then ok south
    else if v == 8
    then ok southwest
    else if v == 16
    then ok west
    else if v == 32
    then ok northwest
    else if v == 64
    then ok north
    else if v == 128
    then ok northeast
    else err (invalid_encoding v)
