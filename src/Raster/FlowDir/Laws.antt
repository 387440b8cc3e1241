-- ===== src/Raster/FlowDir/Laws.antt =====
-- The encodings are inverse to one another, and opposite directions undo one another.
use package.watershed_delineation.Prelude.{ℕ, ◌<◌, ◌≡◌, ◌↔◌, some, ok, err, arith}
use package.watershed_delineation.Prelude.Int.{pos, ◌+ℤ◌}
use package.watershed_delineation.Raster.FlowDir.{
  FlowDir, FlowDirEncoding, invalid_encoding, esri, taudem, grass, from_encoded, to_encoded, dx, dy,
  opposite,
}

from_encoded-to_encoded :
    (d : FlowDir) (e : FlowDirEncoding) → from_encoded (to_encoded d e) e ≡ ok (some d)
unfolding from_encoded to_encoded
from_encoded-to_encoded d e = ground arith

to_encoded-from_encoded :
    (v : ℕ) (e : FlowDirEncoding) (d : FlowDir)
    → v < 256
    → from_encoded v e ≡ ok (some d)
    → to_encoded d e ≡ v
unfolding from_encoded to_encoded
to_encoded-from_encoded v esri d b h = ground arith
to_encoded-from_encoded v taudem d b h = ground arith
to_encoded-from_encoded v grass d b h = ground arith

-- For every byte and every encoding, the byte decodes to a direction exactly when it is the byte
-- that encodes this direction.
pub from_encoded_iff :
    (v : ℕ) (e : FlowDirEncoding) (d : FlowDir)
    → v < 256
    → (from_encoded v e ≡ ok (some d)) ↔ (to_encoded d e ≡ v)
from_encoded_iff v e d b =
    (to_encoded-from_encoded v e d b, λ h. rw (← h) (from_encoded-to_encoded d e))

-- A byte that is refused, in any encoding, is reported unchanged, also where it was read as signed.
pub from_encoded-echo :
    (v w : ℕ) (e : FlowDirEncoding) → v < 256 → from_encoded v e ≡ err (invalid_encoding w) → w ≡ v
unfolding from_encoded
from_encoded-echo v w esri b h = ground arith
from_encoded-echo v w taudem b h = ground arith
from_encoded-echo v w grass b h = ground arith

pub opposite_undoes :
    (d : FlowDir) → (dx d +ℤ dx (opposite d) ≡ pos 0) × (dy d +ℤ dy (opposite d) ≡ pos 0)
opposite_undoes d = ground arith
