-- ===== src/Lib.antt =====
-- s3fs-fuse, a FUSE file system over Amazon S3: a model of the parts that keep its state.
--
-- A file that is open has a cache file on disk. `FdEntity` (src/fdcache_entity.cpp) keeps for it a
-- `PageList`, which says of each area of the cache file whether it is loaded from S3 and whether it
-- is modified, and asks it what to load, what to upload and in which parts. In stream uploads it also
-- keeps an `UntreatedParts` of the areas that are still to upload. Each open of the file is a
-- `PseudoFdInfo`, which has a number from `PseudoFdManager` and the parts of its upload, and cuts the
-- areas of `UntreatedParts` into parts. The attributes of objects are converted from HTTP headers and
-- kept in the `StatCache`. Directories are listed from S3 into an `S3ObjList`, whose names pass
-- through the encodings of string_util.
--
-- - Base holds Boolean tests on numbers, lists measured by them, integers, strings and maps.
-- - PageList (src/fdcache_page.h, src/fdcache_page.cpp): `struct fdpage` is `Fdpage`, `class
--   PageList` is the record `PageList`, and each method has its name in snake case. A method that
--   changes the list returns the new one. Loops are recursion on the list of pages.
--   PageList/View has the byte view, the flags of each byte, that the methods are specified by;
--   PageList/Query the methods that read the list; PageList/RawCompress the utilities for copies of
--   a list; PageList/Multipart the lists for a multipart upload and for punching holes.
--
-- - UntreatedParts (src/fdcache_untreated.h, src/fdcache_untreated.cpp, and `struct untreatedpart`
--   of src/types.h): the areas of the file that were written and not uploaded yet, which the stream
--   upload of `FdEntity` takes from. UntreatedParts/View has the bytes that are held and the
--   invariant; the other files are one method each.
-- - StringUtil (src/string_util.cpp): the encodings of object names, HTTP headers and response
--   bodies, as functions on lists of bytes, each with a file of theorems below it.
-- - S3ObjList (src/s3objlist.h, src/s3objlist.cpp): the names of a bucket listing, with the three
--   ways in which a directory may be stored. S3ObjList/Normal describes the normalized name,
--   S3ObjList/Names has the lists of names.
-- - PseudoFd (src/fdcache_pseudofd.h, src/fdcache_pseudofd.cpp): the file descriptors that are given
--   to the kernel, with the calls in any order as a step relation.
-- - StatCache (src/cache.h, src/cache.cpp): the caches of attributes and of symbolic links, with the
--   clock as a parameter. StatCache itself has the symbolic link cache, StatCache/Stat the entries of
--   the stat cache, its search and its truncation, StatCache/Methods the methods that add, find and
--   remove entries, StatCache/Notruncate the names of files that are not uploaded yet, and
--   StatCache/Attributes the settings. What the methods call elsewhere is the record `Environment`.
--   StatCache/Methods/Hit describes what a lookup may return, and why.
-- - FdInfo (src/fdcache_fdinfo.h, src/fdcache_fdinfo.cpp): `class PseudoFdInfo`. FdInfo/State opens
--   and clears, FdInfo/PartList has the list of uploaded parts, FdInfo/Untreated the parts for one
--   written area, FdInfo/AllArea those for a whole file, with its main loop in FdInfo/AllArea/Rounds,
--   and FdInfo/Upload the upload of the area that was written last, and of all parts. Iterators are the
--   rest of a list; ETags that parts point to are indices.
-- - Headers and HeaderNames (src/metaheader.h, src/string_util.h): maps from header names, in which
--   case does not count, and the names that are looked for. MetaHeader (src/metaheader.cpp): the
--   conversion to a mode, times and `struct stat`, and `merge_headers`. MetaHeader/ModeOf describes
--   the mode by the headers, apart from the code.
--
-- Offsets and sizes of pages are `off_t` values that are not negative, as numbers, so sums do not
-- wrap below 2^63. The loop that divides a page into parts runs on fuel, `bytes + 1`; each round
-- takes at least one byte when the part size is positive. The loop over the parents of a name runs
-- as many rounds as the name has characters (S3ObjList/Names/Parents: more rounds change nothing).
-- The loop that cuts parts from an area runs as many rounds as the area has bytes, and the one over
-- the areas of a file as many as the file has bytes: a round takes a byte or more, and the theorems on
-- them are stated at this fuel.
-- A parameter that a method tests for being negative is an integer (Base/Integers). Counters
-- (`long` tags, hit counts, seconds) do not wrap.
--
-- Not modelled: the stats file of a page list and its comparison with the sparse cache file,
-- `FdEntity` but for `ReplaceLastUpdateUntreatedPart`, `FdManager`, the requests that PseudoFdInfo
-- sends and what their threads write, which are parameters, the FUSE operations, HTTP requests
-- and their threads, credentials, signatures, logging and the command line, which call the parts
-- above or only pass data to libraries.
pub mod Base
pub mod Headers
pub mod PageList
pub mod UntreatedParts
pub mod StringUtil
pub mod S3ObjList
pub mod PseudoFd
pub mod StatCache
pub mod FdInfo
pub mod HeaderNames
pub mod MetaHeader
