-- ===== src/Lib.antt =====
-- The verification of RorkHook, a C library that hooks functions in Mach-O processes. It decodes
-- A64 instructions, walks the load commands of images, resolves private symbols in loaded images, in
-- mapped files and in the dyld shared cache, and changes code and pointers. All sources stand under
-- Sources/RorkHook. The parsers take bytes that nobody has checked, so the main question is whether
-- they read only what they may, and whether what they return is right.
--
-- Memory. `Space` is the address space: the value and the protection of every byte. Pointers are
-- addresses and NULL is 0. The result of an operation is an `Outcome`: `ok`, `rejected` (the
-- `false`, NULL or error of the source), or `fault`, for a read that the protection does not permit.
-- Multi-byte fields are read little-endian at the offsets of the LP64 records. `Ensures P` says of
-- an outcome that it is no fault, and that P holds if it is `ok`. A copy of a record is read where the
-- record stands. An out parameter is a Boolean that is true where the pointer is given.
--
-- What is not in the repository is a parameter, the record `Platform`: vm_region_64 and the pointer
-- authentication. `IsTruthful` states what the library relies on: a reported region has the reported
-- protection throughout. What changes the memory or the thread is in the records `Kernel` (vm_protect or
-- its trap) and `Device` (the system register, the comm page, the process configuration), with the
-- hypotheses `IsProtecting`, `IsClosing` and `IsGuarded`. A gated address is one that the hardware writes
-- only through the open window. Stores take a permission as reads do. In a process with a write window
-- the source stores whatever vm_protect has answered; a store there has the precondition `IsReachable`,
-- without which it can fault. memchr, memcmp, strlen and strncmp are written out in CString.antt, which
-- fault where they would read unreadable bytes. A C string that the caller passes is the list of its
-- bytes, none of them zero.
--
-- The files, by the code that they model:
--   Arm64            RorkHookArm64.c: RorkHookAddSignedOffset, RorkHookArm64SignExtend, the
--                    RorkHookDecode functions; Arm64/Veneer: RorkHookFollowOneBranch;
--                    Arm64/Encoding is the independent description of the encodings
--   Region           RorkHookInternal.c: RorkHookQueryRegion, RorkHookMemoryProtection,
--                    RorkHookReadableMemoryLength, RorkHookMemoryIsReadable,
--                    RorkHookSignPointerIfExecutable
--   LoadCommands     RorkHookInternal.c: RorkHookValidateLoadCommands, RorkHookForEachLoadCommand and
--                    RorkHookForEachLoadCommandWithSize; LoadCommands/Table describes valid tables
--   ImageSlide       RorkHookInternal.c: RorkHookAddressDifference, the slide visitor and
--                    RorkHookImageSlide
--   SharedCache      RorkHookSharedCache.c: the views and RorkHookFindSharedCacheSymbolInData, in
--                    the parts Image (the image table), Local (the local symbols) and Lookup (the
--                    whole)
--   SharedCache/Format
--                    private/RorkHookDyldCache.h: the fields that the parser reads;
--                    SharedCache/Format/Layout has the records by their members
--   Symbols          RorkHookSymbols.c: the search of symbol tables; Symbols/Live is
--                    RorkHookFindSymbol, Symbols/FileImage RorkHookFindSymbolInFileImageWithSize and
--                    RorkHookFindSymbolInFileImage
--   Memory           RorkHookMemory.c: RorkHookProtectMemory and its two wrappers
--   Tpro             RorkHookMemory.c: the write window of the thread, from RorkHookProbeProcessTPRO to
--                    RorkHookAllowTPROWrites
--   Pointer          RorkHookMemory.c: RorkHookStoreProtectedPointer and
--                    RorkHookRestorePointerPageProtections
--   Files            RorkHookSharedCache.c: RorkHookMapFile and RorkHookUnmapFile; the system's calls
--                    are the record `System` over what the process holds
--   SharedCache/AtPath, SharedCache/Located, SharedCache/Active
--                    RorkHookSharedCache.c: RorkHookFindSharedCacheSymbolAtPath,
--                    RorkHookLocateSharedCache and RorkHookFindSharedCacheSymbol, with
--                    RorkHookSharedCacheSlide of RorkHookInternal.c
--   Rebind           RorkHookRebind.c: the rewriting of the slots of one image; Rebind/Fates
--                    follows each slot of one section; Rebind/Global is
--                    the registry as one thread runs it, from RorkHookApplyRebind to
--                    RorkHookRebindSymbolGlobally; Rebind/Registry is the same code as steps that
--                    interleave with other calls and with dyld
--   Jump             RorkHookFunction.c: the encoders and RorkHookBuildAbsoluteJump
--   Replace          RorkHookFunction.c: RorkHookReplaceFunctionWithSize and RorkHookReplaceFunction
--   MachO            the system's Mach-O records, as far as they are read
--   Base, Outcome, Space, Platform, CString   shared by all
--   Tests            an image and a shared cache built byte by byte, and runs on them
--
-- Loops are structural recursion on the number of rounds that are left, which the source's bound gives,
-- so no fuel is needed; the walk over the commands, which reads the count again in every round, counts
-- down from UINT32_MAX, above which no count of 32 bits lies. Counters of 32 bits wrap as in the source. A visitor's context is threaded
-- through the walk, so the tests of the visitors for a null context are left out.
--
-- The files of the shared cache are mapped over a `System`: `IsSystem` states what open, mmap, close and
-- munmap do to what is held. The rebind runs on a `Host`, to which getsectiondata belongs, and the
-- registry on a `Loader` (dladdr, the images of dyld, malloc). In Rebind/Registry a call is named by its
-- entry, and a step is one access to what is shared: a turn of the exchange loop, dispatch_once, the
-- count, one visit, a load by dyld, one application in a callback. An application of an entry to an
-- image is one step there.
--
-- Not modelled: RorkHookVersion.c, two constants; the builds for other processors, in which the
-- function replacement refuses. Concurrent changes of memory between a check and its use are outside
-- the model, and so is the unloading of images.
pub mod Base
pub mod Outcome
pub mod Space
pub mod Arm64
pub mod Platform
pub mod Region
pub mod CString
pub mod Files
pub mod SharedCache
pub mod LoadCommands
pub mod MachO
pub mod ImageSlide
pub mod Symbols
pub mod Memory
pub mod Tpro
pub mod Pointer
pub mod Jump
pub mod Replace
pub mod Rebind
pub mod Tests
