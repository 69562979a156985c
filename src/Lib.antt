-- ===== src/Lib.antt =====
-- a5px reads rasters and aggregates their pixels into A5 cells. This library models the part of its
-- Rust code (src/rust/src) that decides what is read, what is kept, and what each cell adds up to.
--
-- How the parts interact. A read takes its bytes through `CachedReader` (range_cache.rs): ranges that
-- the session cache holds are served from it, the others are merged by `coalesce`, fetched, cut apart
-- and cached. The header of a file goes through `ChunkedMetadataCache` (meta_cache.rs) first. The
-- tiles of a read are grouped into strips, one task each, and the rows of a tile into stripes
-- (read.rs). A stripe gives each pixel a cell, asks the cell mask (cell_mask.rs) for it, and adds the
-- pixel to a `CellStore`, whose accumulator layout follows from the stats asked for; the stores are
-- merged cell by cell and finalised (read.rs).
--
-- Files, with the code they model.
-- - Prelude and its children: Booleans, lists, maps, results and integers that the rest shares.
-- - RangeCache: `struct RangeCache` with `get`, `insert`, `evict` and `clear`, and `set_budget` and
--   `default_budget`, of src/rust/src/range_cache.rs. `map` is the `HashMap` and `order` the
--   `BTreeMap` of ticks. Valid says when a cache is well formed; Order, Renew, Evict, Ops and
--   Newest prove what the operations do to it; Reads what `get` returns.
-- - Coalesce: `coalesce` of src/rust/src/range_cache.rs; `merge_one` is a round of its loop,
--   `sort_by_start` its stable sort. Sort, Cover and Caps hold the proofs.
-- - Reader: `CachedReader` with `get_bytes`, `get_byte_ranges`, `clear` and `stats` of
--   src/rust/src/range_cache.rs, over a `Session` (the cache and its counters). Slices, Fill,
--   Missing and Ranges hold the proofs.
-- - MetaCache: `fetch` of src/rust/src/meta_cache.rs; `load_chunks` is its first loop, `join_parts`
--   its second. Loads and Exact hold the proofs.
-- - CellMask: `CellMask` and `MaskCache` of src/rust/src/cell_mask.rs.
-- - Stats: `Stat`, `parse_stats`, `AccCfg` and `layout_for` of src/rust/src/read.rs, and the errors of
--   src/rust/src/error.rs without their messages.
-- - Float, Layouts: `f64` as a parameter, and `AccSum`, `AccMean`, `AccRange` and `AccFull` of
--   src/rust/src/read.rs as instances of `AccLayout`.
-- - Classes: `cat_push` and the majority of src/rust/src/read.rs.
-- - Store: `CellStore` of src/rust/src/read.rs; Merge has the merging of cells and the reading of
--   values, Shape and Weights the proofs.
-- - Decode: `DequantLut`, `Decode`, `resolve_decode` and the checks of data types of
--   src/rust/src/read.rs, and `derive_data_type` of src/rust/src/band_fetch.rs. Domain has the proof.
-- - Pixels: the typed pixel access of src/rust/src/read.rs; Marks and Bounds hold the proofs.
-- - Rows: the validity sweep, the runs and the hints of a row, of src/rust/src/read.rs; Marks, Runs and
--   Bounds hold the proofs.
-- - Parts: `PartitionedStore` of src/rust/src/read.rs, with the counting sort of `absorb`; Groups,
--   Starts, Absorb and Returns hold the proofs.
-- - Tiles: `TileCtx`, `TileData` and `process_tile` of src/rust/src/read.rs: `mark_row`, `scan_row` and
--   `push_row` are its three passes over a row, the latter two in Stripe and Push, with `push_pixel`.
--   Values, Places and the children of Push and Stripe hold the proofs.
-- - Overlay: `process_tile_overlay` of src/rust/src/read.rs, its boundary pass in Boundary; Shares
--   and Chunks hold the proofs.
-- - Strips: `plan_strips` of src/rust/src/read.rs and the stripes of `process_tile_striped`.
-- - Bands: `source_specs`, `resolve_selection`, `plan_bands` (in Plan) and `check_same_scale_offset` (in
--   Scales) of src/rust/src/sources.rs. Selection, Columns and Pooled hold the proofs.
-- - Composite: `Reducer` of src/rust/src/composite.rs; Majority holds the proof.
-- - Aggregate: `Aggregate`, `Output` and `FracOut` of src/rust/src/read.rs, and `composite_output` (in
--   Composed, over the reducers). Rows, Writes, Shares and the children of Composed hold the proofs.
-- - Locator: `CellGeom`, `PointEval` (in Point) and `CellLocator` (in Scan) of src/rust/src/locator.rs.
--   Margin, Sound, Valid and Exact hold the proofs.
-- - Georef: `GeoTransform` and `extract_geotransform` of src/rust/src/geo.rs; Errors holds the proof.
-- - Levels: the overviews of src/rust/src/read.rs (`overview_levels`, `select_overview_level`,
--   `common_overview_levels`, `derive_level_geotransform`) and `find_mask_ifd`; Common holds the proof.
-- - Arguments: `meta_pairs`, `parse_src_nodata_arg` and `parse_overlay_args` of src/rust/src/read.rs.
-- - Regions: `Boxes`, `in_bbox`, `bbox_classify` and `wrap_lon` of src/rust/src/grid_proj.rs; Decided
--   holds the proof.
-- - Kernels: `Interp`, `kernel_1d` and `stencil_start` of src/rust/src/sample.rs.
-- - Examples: runs and applications at concrete inputs.
--
-- Parameters. The object store is a function from ranges to bytes or an error, assumed to return the
-- bytes of a range cut short at the end of the file. `meanwhile` is what other threads do to the
-- session while a request is awaited, assumed to keep the cache right. The a5 library's
-- `get_resolution` and `cell_to_parent`, and the operations of `f64`, are parameters, as are those that the reducers add to them (`Total`), and the
-- cosine, the sine, `floor` and the like (`Ground`, `Waves`); what a theorem
-- needs of them it names as a hypothesis. So are, as `A5Library`, the cells, the faces and the search
-- that the locator asks of that library. `Geometry` and `Lattice` stand for what the projector, the
-- boxes, the polygons and the locator say of a stripe's pixels, corners and sub-points: float geometry
-- over the PROJ and a5 libraries, but for the locator and the boxes, which have
-- models of their own (Locator, Regions). A decoded tile is async-tiff's typed array, and an image directory its
-- sample formats, bits and parsed scales and offsets.
--
-- Bounds and fuel. `u64` sums and differences wrap as in an optimised build (`add_u64`, `sub_u64`);
-- theorems that need no wrap say so: ticks below 2^64, a budget below 2^63, ranges that end below 2^64,
-- fewer than 2^32 cells. A slot is a `u32`, and so is taken modulo 2^32. `stripes` has the height of
-- the tile as fuel, enough since each stripe has at least one row; the runs of a row have its width,
-- the chunks of the boundary pass the number of pixels deferred, those of an output its rows, and the
-- groups of a composite its references, of which each takes one at least; the other loops are structural. A
-- partition is a byte, so there are at most 2^8 stores. An index past the end of a decoded tile or of a
-- mask is a panic; one past the end of a store's own slabs gives a default. The locator's caches are cleared at
-- 65,536 geometries and 8,192 lists of children; a class offset is an `i32`, and wraps.
--
-- Not modelled: the read driver and its threads, fetching and decoding of tiles, projections, the
-- geometry of polygons, Parquet output and the R interface, which are I/O,
-- third-party code or float geometry; the locks of the partitioned store, each of which guards one
-- store; and, so far, the tile ranges of a box, GDAL's metadata and the accumulation of cell samples.
pub mod Aggregate
pub mod Arguments
pub mod Bands
pub mod CellMask
pub mod Classes
pub mod Coalesce
pub mod Composite
pub mod Decode
pub mod Examples
pub mod Float
pub mod Georef
pub mod Kernels
pub mod Layouts
pub mod Levels
pub mod Locator
pub mod MetaCache
pub mod Overlay
pub mod Parts
pub mod Pixels
pub mod Prelude
pub mod RangeCache
pub mod Reader
pub mod Regions
pub mod Rows
pub mod Stats
pub mod Store
pub mod Strips
pub mod Tiles
