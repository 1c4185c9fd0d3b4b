-- ===== src/Lib.antt =====
-- A model of parts of miniStudio's GUI builder: its layout engines, its reader of resource
-- packages, the names in its resource compiler, its undo ring, its code combination and its
-- message catalogues.
--
-- The grid layout (mgfc/gridlayout.c, mgfc/gridlayout.h) arranges windows in rows and columns. A
-- layout keeps a table of cells, and optionally a table of units for the widths of its columns
-- and one for the heights of its rows; a unit asks for pixels, for per cent or for nothing (an
-- equal share of what is left), or is a splitter that the user drags. A cell holds a window,
-- another layout or an object of the user.
--
-- GridLayout/Units: recalca_units, which gives each unit its size.
-- GridLayout/State, GridLayout/Cells: the layout, its creation, and reading and writing its cells.
-- GridLayout/Position: from a point to a cell (GetRowColByPos, GridLayoutHit) and from a cell to its
--   rectangle (GridLayoutGetCellRect).
-- GridLayout/Visit: the two walks over the cells; GridLayout/Visit/InRange: the walks on a layout
--   whose tables are as long as its counts say.
-- GridLayout/Resize: SetGridLayoutRect on a store of layouts, and the requests to windows.
-- GridLayout/Show: GridLayoutShow.
-- GridLayout/Destroy: CleanupGridLayout and DeleteGridLayout.
-- GridLayout/Spliter: getSpliterInfo, updateSpliterSize, and processSpliter as a state machine.
-- GridLayout/Spliter/Hook: GridLayoutHookProc.
-- GridLayout/Reach: all layouts that sequences of calls can make.
--
-- The fixed layout (mgfc/fixedlayout.c, mgfc/fixedlayout.h) is a list of cells, each with a
-- place of its own in the rectangle of the layout; a cell may hold a grid layout.
--
-- FixedLayout/Cells: the list, FixedLayoutInit, FixedLayoutInsert, FixedLayoutClear, and showing.
-- FixedLayout/Place: _fixed_layout_calca, _fixed_layout_calcsize, _fixed_layout_move_cell and
--   _fixedlayout_setRect.
--
-- Resource packages (tools/res2c/resource.c, tools/res2c/resource.h) are files of sections that
-- are mapped into memory and read in place; a string is found by its identifier in a sorted map.
--
-- Resource/Files: the list of mapped files (append_list, find_list, del_list, del_alllist).
-- Resource/Memory, Resource/Search: reading mapped bytes, search_type_item, binary_search_iditem.
-- Resource/Package: sections, locales, ncsGetString; Resource/Package/Loading: loading a package and
--   giving it back.
--
-- The resource compiler (tools/res2c/res2c.c) writes packages and images as C arrays.
--
-- Res2c/Export: add_export, the name of an array.
--
-- Undo and redo (include/undo-redo.h, include/defundo-redo-observer.h,
-- common/defundo-redo-observer.cpp) keep the commands of an editor in a ring of pointers.
--
-- Undo/Observer: DefaultUndoRedoObserver, with pushUndoRedoCommand, undo, redo and emptyRedo.
-- Undo/History, Undo/Refine: the history of commands that a ring stands for.
-- Undo/Session: the calls that are made on a ring.
-- Undo/Object: UndoRedoObject.
--
-- Code combination (include/codecombin.h, common/codecombin.cpp) brings generated code into a source
-- file that its user has changed: a file is a tree of texts, generated parts and user code.
--
-- CodeCombin/Element, CodeCombin/Parts, CodeCombin/Combine: the elements, disableCode,
--   replaceAutoGenPart and combin.
-- CodeCombin/Stream, CodeCombin/Load, CodeCombin/Save: fgetnstr, fungetnstr, fgetword, the
--   loadFromFile and saveToFile functions, LoadFromFile and CodeCombinFiles.
-- CodeCombin/Combined, Names, Kept, Inside, Finishes, FileEnds, TextLoads, Front and others:
--   their theorems.
--
-- Message catalogues (trans/gettext.cpp, trans/read_mo.cpp, trans/read_mo.h) hold the translations of
-- the messages of the program.
--
-- Trans/ReadMo: get_uint32, get_string and read_mo_file.
-- Trans/Gettext: hash_string and msd_gettext, on the list that has been read.
-- Trans/Found, Trans/Bisect, Trans/Probing, Trans/Strings, Trans/Sizes: their theorems.
--
-- The bit fields of a unit are kept to their widths (14 bits for logic_size, 16 for
-- current_size); other integers are those of mathematics. A read out of bounds, a use of an
-- uninitialised variable and a division by zero are the result `fault` (or `crash`), never a
-- value; only GridLayoutGetCellRect takes the size of a unit behind its table as 0.
-- SetGridLayoutRect, GridLayoutShow, DeleteGridLayout and getSpliterInfo descend through
-- nested layouts on fuel, one unit a level. ncsGetString descends on fuel too, since the name of
-- a file with strings is a string itself; one unit is enough where the strings lie in the
-- package. search_type_item stops at the end of the bytes at the latest, and binary_search_iditem
-- has fuel for the size of its range. The loops over the cells of a fixed layout take one unit of
-- fuel a cell, and the loops of a ring of commands one unit a command that can be redone; one
-- unit more than the commands that are kept is enough. A file is loaded on fuel, three units a
-- byte; ungetc takes back as many bytes as it is given, as that of glibc does, char is signed,
-- and the file that is written can be opened. The loops of msd_gettext take one unit of fuel a
-- message that is looked at.
--
-- Windows, user objects, drawing and the translation of points belong to MiniGUI and to callers:
-- they are parameters, or are recorded as lists of requests and actions. The bytes of a file, if
-- it can be mapped, and isalnum of the C library are parameters as well. Numbers in mapped files
-- have four bytes, the lowest first.
--
-- Not modelled: the C++ editors and their dialogs, the layout panels, values and streams, the choice
-- of a language (msd_locale_init), and everything that only draws, prints or reads files.
pub mod Prelude
pub mod GridLayout
pub mod FixedLayout
pub mod Resource
pub mod Res2c
pub mod Undo
pub mod CodeCombin
pub mod Trans
