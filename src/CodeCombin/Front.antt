-- ===== src/CodeCombin/Front.antt =====
-- Files that begin with a generated part, and CodeCombinFiles of common/codecombin.cpp.
use ministudo_guibuilder.Prelude.{ℕ, suc, ◌≡◌, refl, Option, none, some, [], ◌∷◌, ◌++◌}
use ministudo_guibuilder.Prelude.Run.{done}
use ministudo_guibuilder.CodeCombin.Element.{Text, Element, Elements, compound, auto_gen}
use ministudo_guibuilder.CodeCombin.Save.{save, save_all, opening, closing}
use ministudo_guibuilder.CodeCombin.Stream.{fgetword, fgetnstr, read_word, fungetnstr, skip_blanks}
use ministudo_guibuilder.CodeCombin.Load.{
  load_name, next_child, load_children, load_file, code_combin_files,
}

-- The blank behind "//<[[AutoGenCode" is lost, and the word is then unknown.
load_file_front :
    (fuel : ℕ) (cs : Text) → load_file (suc fuel) (some (opening auto_gen ++ 105 ∷ cs)) ≡ done none
unfolding load_file load_children next_child load_name fgetword fgetnstr read_word fungetnstr
    skip_blanks
load_file_front fuel cs = refl

-- If the user's file begins with a generated part that has a name, it cannot be loaded, and
-- CodeCombinFiles writes the generated file over it: what the user wrote is lost.
pub code_combin_files_front :
    (fuel : ℕ) (from : Option Text) (new : Element) (name : Text) (es : Elements) (cs : Text)
    → load_file (suc fuel) from ≡ done (some new)
    → code_combin_files (suc fuel) from (some (save (compound auto_gen (some name) es) ++ cs))
      ≡ done (some (save new))
unfolding code_combin_files save
code_combin_files_front fuel from new name es cs generated =
    let front =
      load_file_front fuel
        ((100 ∷ 61 ∷ 34 ∷ ((name ++ 34 ∷ 32 ∷ []) ++ (save_all es ++ closing auto_gen))) ++ cs) in
    rw (generated, front) refl
