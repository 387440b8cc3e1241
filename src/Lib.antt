-- ===== src/Lib.antt =====
-- A verification library for the watershed delineation engine of crates/core.
--
-- The engine reads a drainage network and D8 flow-direction rasters, traces the cells upstream of an
-- outlet in its terminal unit, collects the units upstream of it in the drainage graph, merges their
-- shapes and exports basins. The parts that are modelled, with their files:
--
-- Prelude: shared names; Boolean tests, lists over native indices, signed integers, keyed maps,
--   comparisons and sorting, the operations of a floating-point type, and how a call ends (a value,
--   an error, a panic, or fuel used up).
-- Raster: crates/core/src/algo/flow_dir.rs (Raster/FlowDir), coord.rs (Raster/Grid), raster_tile.rs
--   (Raster/Tile), catchment_mask.rs (Raster/Mask), flow_direction_tile.rs (Raster/FlowTile) and
--   accumulation_tile.rs with snap_threshold.rs (Raster/AccTile).
-- Geo: the coordinates and transforms of coord.rs, projection.rs and geo_transform.rs.
-- Trace: crates/core/src/algo/trace.rs, the depth-first search `trace_upstream` over a flow-direction
--   tile, which fills a catchment mask.
-- Upstream: crates/core/src/algo/upstream.rs, the breadth-first search `collect_upstream` over the
--   drainage graph.
-- Polygon: crates/core/src/algo/polygonize.rs: the edges around a mask's cells, `extract_edges`
--   (Polygon/Boundary), and their assembly into rings, `assemble_rings`.
-- Seed: crates/core/src/algo/snap.rs, the candidates for a raster seed (Seed) and their choice,
--   `snap_pour_point` (Seed/Snap).
-- Refine: crates/core/src/algo/refine.rs: `refine_terminal` guards a vector outlet, masks the tiles,
--   takes the seed, traces and polygonizes (Refine/Steps), with the operations of Raster, Seed, Trace.
-- Resolver: crates/core/src/resolver.rs: an outlet's unit by snap targets (Resolver/Vector) or by
--   containment (Resolver/Pip), the dispatch between them (Resolver/Authority), and
--   the legacy result (Resolver/Authority/Legacy).
-- Assembly: crates/core/src/assembly.rs: the map from units to geometries and its errors
--   (Assembly/Entries, Assembly/Complete), and the steps after it, with the winding of polygons of
--   watershed_geometry.rs (Assembly/Geometries).
-- Canonical: crates/core/src/algo/canonical_wkb.rs: the comparisons of rings and polygons (Canonical,
--   Canonical/Orders), the rotation of a ring (Canonical/Rotation) and the normal form of polygons in
--   any order (Canonical/Vertices).
-- Cog: the window arithmetic of crates/core/src/cog.rs: the tests on a raster's layout (Cog/Layout),
--   the plan of a window's tiles (Cog/Plan), the tests on their byte ranges (Cog/Ranges) and the copy
--   of decoded tiles into the window (Cog/Copy), which gives the vectors that raster tiles hold;
--   also what is recorded of the tiles that a window covers (Cog/Coverage).
-- Export: crates/core/src/export/row_groups.rs (Export/RowGroups), the Hilbert index of spatial.rs
--   (Export/Hilbert) and the identifiers of identity.rs (Export/BasinId).
--
-- A struct is a record and an enum a data type with the source's names. A function that can panic
-- returns an `Outcome`, or a `Call` where it can fail with an error too; an index out of range, an
-- `unwrap` of nothing and an arithmetic overflow panic. A `HashSet` is the list of its members, a
-- `HashMap` the list of its insertions. The `while` loops run on fuel: a round for each cell of the
-- grid is enough for the trace, which pushes a cell only when it marks it, and a round for each row of
-- the graph for the traversal, which queues a row once. The ring assembly takes an edge away at each
-- step, so its fuel is the number of edges.
--
-- The numbers of rows and columns are not bounded by 2^64 in the raster models, since a tile's cells
-- are in memory. The window arithmetic of Cog is checked on 32 and 64 bits as the source has it, and
-- so are the Hilbert index and the `i64` of a unit. The `i64` coordinates of the canonical form of
-- polygons and its `i128` areas and sums of them are integers without bounds, so an overflow of the
-- area of a ring (crates/core/src/algo/canonical_wkb.rs, `signed_area_twice`) is not modelled.
--
-- A floating-point type is a parameter: the record `Floats` holds its `total_cmp` as a total order and
-- its other operations without laws, and a theorem that needs a law has it as a hypothesis (the floor
-- of a number below a bound, that the NaN is one, a distance within the tolerance of itself). The
-- examples take natural numbers for it. The geometry crates, the hfx types, the store and the session
-- are parameters in the same way: records of what the code asks of them. So the steps of the assembly
-- that dissolve, repair, clean, fill and measure a geometry are parameters, and so are the parts of a
-- polygon and the two windings of a ring.
--
-- Not modelled: laws of float arithmetic, polygon operations of the geo crate, rasterization, the TIFF
-- header parser and the decoding of its chunks, the parquet readers and writers, network and file
-- access, caches, sessions, telemetry and error text. The drainage graph of the hfx crate is a
-- parameter: a finite map from a unit to the units directly upstream.
pub mod Prelude
pub mod Raster
pub mod Geo
pub mod Trace
pub mod Upstream
pub mod Polygon
pub mod Canonical
pub mod Seed
pub mod Refine
pub mod Resolver
pub mod Assembly
pub mod Cog
pub mod Export
