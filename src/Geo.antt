-- ===== src/Geo.antt =====
-- Coordinates and the transform from cells to coordinates (crates/core/src/algo/coord.rs,
-- projection.rs and geo_transform.rs), over a parameter for `f64`.
use package.watershed_delineation.Prelude.Floats.{Floats}
use package.watershed_delineation.Raster.Grid.{GridCoord}

pub record GeoCoord (F : Type 0) : Type 0 where
  pub lon : F
  pub lat : F

pub record NativeCoord (F : Type 0) : Type 0 where
  pub x : F
  pub y : F

pub record GeoTransform (F : Type 0) : Type 0 where
  pub origin_x : F
  pub origin_y : F
  pub pixel_width : F
  pub pixel_height : F

module _ {F : Type 0} (fl : Floats F) where
  pub pixel_area : GeoTransform F → F
  pixel_area g = fl.abs (fl.mul g.pixel_width g.pixel_height)

  pub pixel_to_coord : GeoTransform F → GridCoord → NativeCoord F
  pixel_to_coord g cell =
      let half = fl.literal 5 1 in
      record {
        x = fl.add g.origin_x (fl.mul (fl.add (fl.of_nat cell.col) half) g.pixel_width);
        y = fl.add g.origin_y (fl.mul (fl.add (fl.of_nat cell.row) half) g.pixel_height);
      }

  pub coord_to_pixel : GeoTransform F → NativeCoord F → GridCoord
  coord_to_pixel g coord = record {
    row = fl.floor_nat (fl.div (fl.sub coord.y g.origin_y) g.pixel_height);
    col = fl.floor_nat (fl.div (fl.sub coord.x g.origin_x) g.pixel_width);
  }

  -- The row and the column.
  pub coord_to_pixel_f64 : GeoTransform F → NativeCoord F → F × F
  coord_to_pixel_f64 g coord = (
    fl.div (fl.sub coord.y g.origin_y) g.pixel_height,
    fl.div (fl.sub coord.x g.origin_x) g.pixel_width,
  )
