-- ===== src/Lib.antt =====
-- A verification library of opensqlany, a reader of SQL Anywhere database files that are not
-- encrypted (crates/opensqlany). The program reads a file into memory as a store of pages of 4096
-- bytes, checks and classifies pages, and finds the rows in them; rows too long for a page continue
-- in segments elsewhere. Each file of the crate has a module here:
--
--   Error             crates/opensqlany/src/error.rs: the errors of pages and stores.
--   Page              page.rs: Page, its trailer and checksum; Page/Types is PageType.
--   Superblock        superblock.rs: Superblock::parse, memmem and the flag bits.
--   Store             store.rs: PageStore, the iterator Pages, and the snapshot of a file.
--   RowSegment        row_segment.rs: parse_row_segment; RowSegment/Chain is
--                     walk_row_segment_chain.
--   MaterializedPage  materialized_page.rs: MaterializedTablePage; `select_record` is `record`.
--   PageLinks         page_links.rs: find_page_link_metadata and walk_page_links.
--   Slotted           slotted.rs: SlotDirectory and find_slot_directory; Slotted/Rows is
--                     SlottedPage with row_slots and unclassified_prefix.
--   RowDecoder        row_decoder.rs: the schema and row_header_and_presence; RowDecoder/Cursor is
--                     take and the scalars, RowDecoder/Values the values and numerics,
--                     RowDecoder/Fields is decode_non_boolean, RowDecoder/Rows is decode_row,
--                     decode_row_exact and decode_materialized_row_record_exact, and
--                     RowDecoder/Prefix is decode_row_prefix_and_boolean_tail.
--   Ap                ap.rs: the fill of a sector, apply_stream and the search for its step;
--                     Ap/Models is ApModel and how a calibration byte is found.
--   PagePermutation   page_permutation.rs: permute_power_of_two_in_place and its two loops.
--
-- A store gives its pages to the other parts: Store uses Page and Superblock, and
-- MaterializedPage hands the bytes of a record to RowSegment, whose payload RowDecoder/Rows decodes. PageLinks and the chain walk take
-- what they look up as a function, as the source takes a closure.
--
-- How the model corresponds to the code. Bytes and machine integers are natural numbers; where the
-- source can wrap, the wrapping is written out. A slice or a vector is a list. A fallible function
-- returns an Outcome: a value, an error, or a panic, where the panic is what an index or a slice out
-- of range and a failed assertion do; so that a function does not panic is a statement and not an
-- assumption. A for loop has its rounds and its next index as arguments.
--
-- Bounds and fuel. The chain walk has one round more than max_segments, and the page-link walk one
-- more than max_pages, since each round adds one; the end of the fuel is the value none. The loop of
-- scan_from has 0x300 rounds, each of which advances by two inside a prefix of 0x300 bytes; the end
-- of its fuel counts as a panic. Driving the page iterator to its end takes one round more than the
-- page count. The permutation
-- has as many rounds as the buffer has bytes: its stride comes back to the start after that many
-- steps. The searches over bytes and steps have 256 rounds, as in the source.
--
-- Parameters. The checksum (crc32fast) is any function; where a theorem needs that its values are
-- 32-bit words, it says so. The file behind a store is a record of operations, Store.Reader. The
-- conversion of sizes to usize and the reservation of memory are tests that the caller gives.
-- The order in which a hash map is iterated is unspecified; it is a record of functions,
-- Ap.Models.HashOrder.
--
-- Not modelled: the texts of errors, the command line (crates/opensqlany-cli), and of
-- row_decoder.rs the calendar of SaDate and the legacy catalog schemas.
pub mod Base
pub mod Error
pub mod Page
pub mod Superblock
pub mod Store
pub mod RowSegment
pub mod MaterializedPage
pub mod PageLinks
pub mod Slotted
pub mod RowDecoder
pub mod Ap
pub mod PagePermutation
pub mod Examples
