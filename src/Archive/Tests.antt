-- ===== src/Archive/Tests.antt =====
-- Runs of the functions of archive/archiver.c at fixed inputs.
use os_tasks.Base.{
  ◌+◌, ℕ, ◌^◌, ◌<◌, List, [], ◌∷◌, ◌++◌, length, replicate, map, drop, true, false, ◌≡◌, ◌⊎◌, refl,
  some, ok, failure, arith,
}
use os_tasks.Archive.Format.{FileInfo, of_bytes, to_bytes, c_string, of_bytes-to_bytes}
use os_tasks.Archive.Descriptor.{opened}
use os_tasks.Archive.Header.{Reader, init_fi_list, eof_node, read_header}
use os_tasks.Archive.Reading.{IsEntry, headers, header_ending, listed, reader, read_header-headers}
use os_tasks.Archive.Ends.{read_header-ends}
use os_tasks.Archive.Copy.{copy_file}
use os_tasks.Archive.Slice.{at, written, copied, copy_file-slice}
use os_tasks.Archive.Layout.{Entry, Member, member, Represents, IsLaid, without, image}
use os_tasks.Archive.Extract.{Directory, extract_files}
use os_tasks.Archive.Extracted.{extracted, chosen, extract_files-extracted}
use os_tasks.Archive.Input.{Inputs, plain_name, input_files}
use os_tasks.Archive.Put.{Source, IsSource, source_member, source_path}
use os_tasks.Archive.Inserted.{Holds, holds, input_files-inserted}
use os_tasks.Archive.Session.{extract_files-input_files}
use os_tasks.Archive.Program.{Procedures, flag_insert, main, main-insert_flag}
use os_tasks.Archive.Remove.{Leftovers, remove_files}
use os_tasks.Archive.Removed.{remove_files-without}

abbrev info_named : ℕ → ℕ → ℕ → FileInfo
info_named c size offset = record {
  filename = c ∷ replicate 255 0;
  filesize = size;
  mask = 420;
  offset = offset;
}

-- The files "a", with two bytes, and "b", with one.
abbrev two_infos : List FileInfo
two_infos = info_named 97 2 564 ∷ info_named 98 1 566 ∷ []

abbrev pub two_entries : List Entry
two_entries =
    record { info = info_named 97 2 564; bytes = 7 ∷ 8 ∷ [] }
    ∷ record { info = info_named 98 1 566; bytes = 9 ∷ [] }
    ∷ []

info_a-IsEntry : IsEntry (info_named 97 2 564)
info_a-IsEntry = record {
  info = record {
    whole = refl;
    filesize_fits = omega arith;
    mask_fits = omega arith;
    offset_fits = omega arith;
  };
  named = unfold c_string in (λ e. cc);
}

info_b-IsEntry : IsEntry (info_named 98 1 566)
info_b-IsEntry = record {
  info = record {
    whole = refl;
    filesize_fits = omega arith;
    mask_fits = omega arith;
    offset_fits = omega arith;
  };
  named = unfold c_string in (λ e. cc);
}

two-IsLaid : IsLaid two_entries
two-IsLaid = record {
  entries = (info_a-IsEntry, (info_b-IsEntry, tt));
  laid = (refl, refl, (refl, refl, tt));
}

two_fits : length (image two_entries ++ []) < 2 ^ 63
unfolding to_bytes
two_fits = omega arith

abbrev pub two_members : List Member
two_members = map member two_entries

pub two-Represents : Represents (image two_entries ++ []) two_members []
two-Represents = record {
  es = two_entries;
  shape = refl;
  laid = two-IsLaid;
  fits = two_fits;
  same = refl;
}

abbrev pub mem : Leftovers
mem = record { junk = info_named 0 0 0; mark = 1 ∷ 2 ∷ 3 ∷ 4 ∷ []; chunk = [] }

remove_files-without_example :
    (archive' : List ℕ) × (k : ℕ) × (remove_files mem
        ((97 ∷ []) ∷ [])
        (some (image two_entries ++ []))
        (5 ∷ [])
      ≡ ok archive')
    × Represents archive' (without ((97 ∷ []) ∷ []) two_members) (drop k (5 ∷ []))
remove_files-without_example =
    remove_files-without mem (97 ∷ []) [] (image two_entries ++ []) [] (5 ∷ []) two_members
      two-Represents refl (omega arith)

of_bytes-to_bytes_example :
    of_bytes (to_bytes (info_named 97 2 564) ++ 1 ∷ []) ≡ info_named 97 2 564
of_bytes-to_bytes_example = of_bytes-to_bytes (info_named 97 2 564) (1 ∷ []) info_a-IsEntry.info

read_header-headers_example :
    let content = headers two_infos ++ (header_ending ++ 7 ∷ 8 ∷ 9 ∷ []) in
    read_header mem.junk mem.mark (opened content) true (init_fi_list mem.junk)
    ≡ ok (reader content 0 true header_ending (listed mem.junk two_infos))
read_header-headers_example =
    read_header-headers mem.junk mem.mark (7 ∷ 8 ∷ 9 ∷ []) true two_infos two-IsLaid.entries refl

read_header-ends_example :
    ((s : Reader) × (read_header mem.junk mem.mark
          (opened (1 ∷ 2 ∷ 3 ∷ []))
          false
          (eof_node mem.junk)
        ≡ ok s))
    ⊎ (read_header mem.junk mem.mark (opened (1 ∷ 2 ∷ 3 ∷ [])) false (eof_node mem.junk) ≡ failure)
read_header-ends_example =
    read_header-ends mem.junk mem.mark (opened (1 ∷ 2 ∷ 3 ∷ [])) false (eof_node mem.junk)

copy_file-slice_example :
    (buf : List ℕ) × (copy_file 2 1
        (record { old = at (7 ∷ 8 ∷ 9 ∷ []) 0; new = written (5 ∷ []) (6 ∷ []); buf = [] })
      ≡ ok (copied 1 2 (7 ∷ 8 ∷ 9 ∷ []) (5 ∷ []) (6 ∷ []) buf))
copy_file-slice_example =
    copy_file-slice 2 1 (7 ∷ 8 ∷ 9 ∷ []) (5 ∷ []) (6 ∷ []) [] 0 (omega arith) (omega arith)

-- A directory that lists what is stored in it.
abbrev pub shelf : Directory (List Member)
shelf = record {
  open_create = λ fs name. some (fs, []);
  chmod = λ fs name mask. fs;
  store = λ fs name bytes. record { name = name; mask = 0; bytes = bytes } ∷ fs;
}

extract_files-extracted_example :
    extract_files shelf mem ((98 ∷ []) ∷ []) (some (image two_entries ++ [])) []
    ≡ ok (extracted shelf (chosen shelf ((98 ∷ []) ∷ []) two_members) [])
extract_files-extracted_example =
    extract_files-extracted shelf mem ((98 ∷ []) ∷ []) (image two_entries ++ []) [] two_members []
      two-Represents refl

-- One file can be read, whatever its path: mode 0100644, with the bytes 4, 5, 6.
abbrev pub desk : Inputs
desk = record {
  stat = λ path. some 33188;
  size = λ path. some 3;
  content = λ path. some (4 ∷ 5 ∷ 6 ∷ []);
}

-- "d/c"
abbrev pub source_c : Source
source_c = record { path = 100 ∷ 47 ∷ 99 ∷ []; st_mode = 33188; bytes = 4 ∷ 5 ∷ 6 ∷ [] }

pub source_c-IsSource : IsSource desk source_c
unfolding plain_name
source_c-IsSource = record {
  stat = refl;
  regular = refl;
  size = refl;
  content = refl;
  clean = (omega arith, (omega arith, (omega arith, tt)));
  named = λ e. cc;
  short = omega arith;
  bytes_fit = omega arith;
}

two-Holds : Holds (image two_entries ++ []) two_members
two-Holds =
    holds (image two_entries ++ [])
      (member (record { info = info_named 97 2 564; bytes = 7 ∷ 8 ∷ [] }))
      (member (record { info = info_named 98 1 566; bytes = 9 ∷ [] }) ∷ []) two-Represents

two_and_more : length (image two_entries ++ []) + 4 + 283 < 2 ^ 63
unfolding to_bytes
two_and_more = omega arith

input_files-inserted_example :
    (archive' : List ℕ) × (k : ℕ) × (input_files desk mem
        (map source_path (source_c ∷ []))
        (some (image two_entries ++ []))
        (5 ∷ [])
      ≡ ok archive')
    × Represents archive' (two_members ++ map source_member (source_c ∷ [])) (drop k (5 ∷ []))
input_files-inserted_example =
    input_files-inserted desk mem (image two_entries ++ []) (5 ∷ []) two_members source_c []
      two-Holds (source_c-IsSource, tt) refl refl two_and_more (omega arith)

extract_files-input_files_example :
    (archive' : List ℕ) × (input_files desk mem
        (map source_path (source_c ∷ []))
        (some (image two_entries ++ []))
        (5 ∷ [])
      ≡ ok archive')
    × (extract_files shelf mem [] (some archive') []
        ≡ ok (extracted shelf (two_members ++ map source_member (source_c ∷ [])) []))
extract_files-input_files_example =
    extract_files-input_files shelf desk mem (image two_entries ++ []) (5 ∷ []) two_members source_c
      [] [] two-Holds (source_c-IsSource, tt) refl refl two_and_more (omega arith)

abbrev counting : Procedures ℕ
counting = record {
  print_help = λ w. ok w;
  input_files = λ archive files w. ok (w + 1);
  stat_archive = λ archive w. ok w;
  extract_files = λ archive files w. ok w;
  remove_files = λ archive files w. ok w;
}

main-insert_flag_example : main counting ((97 ∷ []) ∷ flag_insert ∷ []) 0 ≡ failure
main-insert_flag_example = main-insert_flag counting (97 ∷ []) [] 0 (λ e. cc) (λ e. cc)
