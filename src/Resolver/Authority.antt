-- ===== src/Resolver/Authority.antt =====
-- The dispatch of `resolve_outlet_authority` and its variants (crates/core/src/resolver.rs).
pub mod Legacy
use package.watershed_delineation.Prelude.{ℕ, Option, none, some}
use package.watershed_delineation.Prelude.Floats.{Floats}
use package.watershed_delineation.Prelude.Calls.{Call, done, ◌>>=◌, or_fail}
use package.watershed_delineation.Geo.{GeoCoord}
use package.watershed_delineation.Resolver.{
  Geometry, SnapStore, Session, ResolverConfig, OutletResolution, ResolvedOutlet, of_resolution,
  OutletResolutionError, dataset_read,
}
use package.watershed_delineation.Resolver.Vector.{resolve_via_snap_store}
use package.watershed_delineation.Resolver.Pip.{resolve_via_pip}

module _ {F W B Shape Area Box E : Type 0} (fl : Floats F) (fw : Floats W)
    (geometry : Geometry F W B Shape Area Box) (session : Session W B Box E)
    (outlet : GeoCoord F) where
  unfoldable pub resolve_via_snap :
      ResolverConfig F → Call (OutletResolutionError F E) (OutletResolution F W)
  resolve_via_snap config = do
    snap_store ← or_fail (dataset_read session.integrity) session.snap
    resolve_via_snap_store fl fw geometry session snap_store outlet none config

  abbrev pub by_snap_or_pip :
      ResolverConfig F
      → Option (SnapStore W B Box E)
      → Call (OutletResolutionError F E) (OutletResolution F W)
  by_snap_or_pip config (some store) = resolve_via_snap config
  by_snap_or_pip config none = resolve_via_pip fl fw geometry session outlet none

  unfoldable pub resolve_outlet_authority :
      ResolverConfig F → Call (OutletResolutionError F E) (OutletResolution F W)
  resolve_outlet_authority config = by_snap_or_pip config session.snap

  abbrev pub by_store_or_pip :
      ℕ
      → ResolverConfig F
      → Option (SnapStore W B Box E)
      → Call (OutletResolutionError F E) (OutletResolution F W)
  by_store_or_pip level config (some store) =
      resolve_via_snap_store fl fw geometry session store outlet (some level) config
  by_store_or_pip level config none = resolve_via_pip fl fw geometry session outlet (some level)

  pub resolve_outlet_authority_at_level :
      ℕ → ResolverConfig F → Call (OutletResolutionError F E) (OutletResolution F W)
  resolve_outlet_authority_at_level level config =
      by_store_or_pip level config (session.snap_for_level level)

  unfoldable pub resolve_outlet :
      ResolverConfig F → Call (OutletResolutionError F E) (ResolvedOutlet F W)
  resolve_outlet config = resolve_outlet_authority config >>= λ value. done (of_resolution value)

  pub resolve_outlet_at_level :
      ℕ → ResolverConfig F → Call (OutletResolutionError F E) (ResolvedOutlet F W)
  resolve_outlet_at_level level config =
      resolve_outlet_authority_at_level level config >>= λ value. done (of_resolution value)
