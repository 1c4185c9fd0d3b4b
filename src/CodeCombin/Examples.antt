-- ===== src/CodeCombin/Examples.antt =====
-- Documents that are combined and files that are read, with the functions of common/codecombin.cpp,
-- and the theorems there.
use ministudo_guibuilder.Prelude.{ℕ, ◌≡◌, ◌≢◌, refl, inr, none, some, List, [], ◌∷◌, ◌++◌, arith}
use ministudo_guibuilder.Prelude.Access.{ok, fault}
use ministudo_guibuilder.Prelude.Run.{done, out_of_fuel}
use ministudo_guibuilder.CodeCombin.Element.{
  Text, Element, text, compound, nil, cons, user, auto_gen, doc, from_list, insert_text,
  append_text, get_child, insert_child, clone,
}
use ministudo_guibuilder.CodeCombin.Parts.{
  texts, replace_texts, replace_auto_gen_part, disable_code, open_front, close_back, if_zero,
  end_if,
}
use ministudo_guibuilder.CodeCombin.Combine.{
  find_part, put_part, put_parts, disable_obsolete, combin,
}
use ministudo_guibuilder.CodeCombin.Lookup.{lookup_part}
use ministudo_guibuilder.CodeCombin.Merge.{Distinct}
use ministudo_guibuilder.CodeCombin.Combined.{combined, combin-lookup}
use ministudo_guibuilder.CodeCombin.Kept.{others, combin-others}
use ministudo_guibuilder.CodeCombin.Finishes.{Filled, combin-returns, combin_empty, empty_part}
use ministudo_guibuilder.CodeCombin.Inside.{compounds, written_over, replace_auto_gen_part-inside}
use ministudo_guibuilder.CodeCombin.Save.{
  save, save_all, end_mark, opening, closing, identification, disable_code-save,
}
use ministudo_guibuilder.CodeCombin.Stream.{
  reading, read_word, fgetnstr, fungetnstr, fgetword, skip_blanks, end_of_file,
}
use ministudo_guibuilder.CodeCombin.Load.{
  load_text, empty_text, text_round, read_name, read_quoted, load_name, next_child, load_children,
  load_file, code_combin_files, children,
}
use ministudo_guibuilder.CodeCombin.Front.{code_combin_files_front}
use ministudo_guibuilder.CodeCombin.FileEnds.{code_combin_files-ends}
use ministudo_guibuilder.CodeCombin.LineLoads.{unlines}
use ministudo_guibuilder.CodeCombin.TextLoads.{load_text-save}

program : Unit {0}
unfolding insert_text append_text get_child insert_child clone replace_texts replace_auto_gen_part
    open_front close_back disable_code find_part put_part put_parts disable_obsolete combin save
    read_word fgetnstr fungetnstr skip_blanks fgetword text_round load_text read_name read_quoted
    load_name next_child load_children load_file code_combin_files
program = tt

-- "A\n", and parts of one text with the names "a" to "d".
abbrev line : ℕ → Text
line c = c ∷ 10 ∷ []

abbrev part : ℕ → ℕ → Element
part name c = compound auto_gen (some (name ∷ [])) (cons (text (some (line c))) nil)

abbrev own : List Element
own = text (some (line 65)) ∷ part 97 66 ∷ text (some (line 67)) ∷ part 98 68 ∷ []

abbrev generated : List Element
generated = text (some (line 69)) ∷ part 97 70 ∷ part 99 71 ∷ []

-- Part a takes over the text, part c is new and comes behind it and the user's text, part b is
-- disabled.
combin_runs :
    combin own generated
    ≡ ok (
        text (some (line 65))
        ∷ part 97 70
        ∷ text (some (line 67))
        ∷ part 99 71
        ∷ disable_code (part 98 68)
        ∷ [])
unfolding program
combin_runs = refl

-- "a b\nc\n" and "a b": a blank is lost, and a byte is added.
load_file_runs :
    load_file 100 (some (97 ∷ 32 ∷ 98 ∷ 10 ∷ 99 ∷ 10 ∷ []))
    ≡ done (some (compound doc none (cons (text (some (97 ∷ 98 ∷ 10 ∷ 99 ∷ 10 ∷ []))) nil)))
unfolding program
load_file_runs = refl

load_file_last_runs :
    load_file 100 (some (97 ∷ 32 ∷ 98 ∷ []))
    ≡ done (some (compound doc none (cons (text (some (97 ∷ 98 ∷ end_of_file ∷ []))) nil)))
unfolding program
load_file_last_runs = refl

-- A part is saved with a blank behind its name, which is loaded as part of its text.
abbrev saved_part : Text
saved_part = save (part 97 66)

part_runs :
    load_file 200 (some (10 ∷ saved_part))
    ≡ done (
        some (
          compound doc none (
            cons (text (some (10 ∷ []))) (
              cons
                (compound auto_gen (some (97 ∷ [])) (cons (text (some (32 ∷ line 66))) nil))
                (cons (text none) nil)))))
unfolding program
part_runs = refl

code_combin_files_front_example :
    code_combin_files 100
      (some (97 ∷ 10 ∷ []))
      (some (save (compound auto_gen (some (98 ∷ [])) nil) ++ 10 ∷ 65 ∷ []))
    ≡ done (some (save (compound doc none (cons (text (some (97 ∷ 10 ∷ []))) nil))))
unfolding program
code_combin_files_front_example =
    code_combin_files_front 99 (some (97 ∷ 10 ∷ []))
      (compound doc none (cons (text (some (97 ∷ 10 ∷ []))) nil)) (98 ∷ []) nil (10 ∷ 65 ∷ []) refl

abbrev after : List Element
after =
    text (some (line 65))
    ∷ part 97 70
    ∷ text (some (line 67))
    ∷ part 99 71
    ∷ disable_code (part 98 68)
    ∷ []

combin-lookup_example :
    (lookup_part (98 ∷ []) after
      ≡ combined (lookup_part (98 ∷ []) own) (lookup_part (98 ∷ []) generated))
    × Distinct after
combin-lookup_example =
    combin-lookup own generated (98 ∷ []) (tt, (refl, (tt, (refl, tt)))) (tt, (refl, (refl, tt)))
      combin_runs

combin-others_example :
    others (
      text (some (line 65))
      ∷ part 97 70
      ∷ text (some (line 67))
      ∷ part 99 71
      ∷ disable_code (part 98 68)
      ∷ [])
    ≡ others own
unfolding disable_code
combin-others_example = combin-others own generated combin_runs

combin-returns_example : (es : List Element) × (combin own generated ≡ ok es)
unfolding Filled
combin-returns_example = combin-returns own generated (tt, ((tt, tt), ((tt, tt), tt)))

combin_empty_example : combin own (part 97 70 ∷ empty_part (100 ∷ []) generated ∷ generated) ≡ fault
combin_empty_example = combin_empty (100 ∷ []) generated own (part 97 70 ∷ []) refl refl

abbrev mixed : List Element
mixed =
    text (some (line 65))
    ∷ compound user none (cons (text (some (line 66))) nil)
    ∷ text (some (line 67))
    ∷ text (some (line 68))
    ∷ []

abbrev fresh : List Element
fresh = text (some (line 70)) ∷ text (some (line 71)) ∷ []

replace_auto_gen_part-inside_example :
    (compounds (
        children (
          replace_auto_gen_part
            (compound auto_gen (some (97 ∷ [])) (from_list mixed))
            (compound auto_gen (some (97 ∷ [])) (from_list fresh))))
      ≡ compounds mixed)
    × (texts (
          children (
            replace_auto_gen_part
              (compound auto_gen (some (97 ∷ [])) (from_list mixed))
              (compound auto_gen (some (97 ∷ [])) (from_list fresh))))
        ≡ written_over (texts mixed) (texts fresh))
replace_auto_gen_part-inside_example =
    replace_auto_gen_part-inside auto_gen auto_gen (some (97 ∷ [])) (some (97 ∷ [])) mixed fresh
      refl

disable_code-save_example :
    save (disable_code (compound auto_gen (some (98 ∷ [])) (from_list mixed)))
    ≡ opening auto_gen
      ++ (identification (some (98 ∷ []))
          ++ (((if_zero ++ save_all (from_list mixed)) ++ end_if) ++ closing auto_gen))
disable_code-save_example = disable_code-save auto_gen (some (98 ∷ [])) (from_list mixed)

code_combin_files-ends_example :
    code_combin_files 200 (some saved_part) (some (97 ∷ 10 ∷ [])) ≢ out_of_fuel
unfolding save
code_combin_files-ends_example =
    code_combin_files-ends 200 (some saved_part) (some (97 ∷ 10 ∷ [])) (omega arith) (omega arith)

load_text-save_example :
    load_text 20 empty_text (
      reading
        (save (text (some (unlines ((47 ∷ 47 ∷ []) ∷ (65 ∷ []) ∷ [])))) ++ (end_mark ++ 10 ∷ [])))
    ≡ done (some (unlines ((47 ∷ 47 ∷ []) ∷ (65 ∷ []) ∷ [])), reading (end_mark ++ 10 ∷ []))
load_text-save_example =
    load_text-save (47 ∷ 47 ∷ []) ((65 ∷ []) ∷ []) 20 end_mark (10 ∷ [])
      ((refl, refl, refl), ((refl, refl, refl), tt)) ((((refl, refl, refl), tt), refl), tt)
      (inr refl) (omega arith)
