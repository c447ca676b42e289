-- ===== src/Broker/TarGuard/Tests.antt =====
-- Archives that the guard (restore-tar-guard.ts) lets through and cuts short. Their texts are ASCII.
use docker_webmail_gui.Broker.TarGuard.{
  RestoreTarGuard, new_guard, restore, transform, walk, walk_round, running_round, header_round,
  typed_round, meta_round, admit_entry, entry_name, entry_link, entry_size, entry_type, forward,
  hold, push_consumed, pass_data, reject, flush, read_meta_header, unsafe_entry, received,
}
use docker_webmail_gui.Broker.TarGuard.Header.{
  Decoder, read_string, read_number, checksum_matches, header_name, round_up_to_block,
}
use docker_webmail_gui.Broker.TarGuard.Paths.{
  components, problem_with, linked, is_beneath, outside, beneath_symlink, restore_target_for,
  last_slash,
}
use docker_webmail_gui.Broker.TarGuard.PassThrough.{Pushes, restore-Pushes}
use docker_webmail_gui.Broker.TarGuard.Fuel.{Ends, walk-Ends}
use docker_webmail_gui.Broker.TarGuard.Inside.{Forwards, result, walk_round-Forwards}
use docker_webmail_gui.Common.{
  List, String, arith, codes, concat, drop, none, refl, some, suc, take, zero, ℕ, ◌++◌, ◌∷◌, ◌≡◌,
  [],
}

abbrev ascii : Decoder
ascii bytes = bytes

abbrev zeros : ℕ → List ℕ
zeros zero = []
zeros (suc n) = 0 ∷ zeros n

abbrev padded : ℕ → List ℕ → List ℕ
padded zero bs = []
padded (suc n) [] = 0 ∷ padded n []
padded (suc n) (b ∷ bs) = b ∷ padded n bs

abbrev header : String → String → String → ℕ → String → List ℕ
header name size checksum kind link =
    padded 100 (codes name)
    ++ (zeros 24
        ++ (padded 12 (codes size)
            ++ (zeros 12
                ++ (codes checksum ++ (0 ∷ 32 ∷ kind ∷ padded 100 (codes link) ++ zeros 255)))))

abbrev file_entry : List ℕ
file_entry = header "mail/a" "00000000003" "002566" b'0' "" ++ padded 512 (codes "abc")

abbrev outside_entry : List ℕ
outside_entry = header "etc/x" "00000000000" "002443" b'0' ""

abbrev symlink_entry : List ℕ
symlink_entry = header "mail/l" "00000000000" "003353" b'2' "/etc"

abbrev beneath_entry : List ℕ
beneath_entry = header "mail/l/x" "00000000000" "003045" b'0' ""

-- Cut inside the entry's data.
abbrev upload : List (List ℕ)
upload = take 600 file_entry ∷ drop 600 file_entry ∷ zeros 512 ∷ zeros 512 ∷ []

run_all : Unit {0}
unfolding restore transform walk walk_round running_round header_round typed_round meta_round
    admit_entry entry_name entry_link entry_size entry_type forward hold push_consumed pass_data
    reject flush read_meta_header read_string read_number checksum_matches header_name
    round_up_to_block components problem_with linked is_beneath
run_all = tt

passes : (restore ascii (codes "mail") upload).rejection ≡ none
unfolding run_all
passes = refl

cuts_outside :
    (restore ascii (codes "mail") ((file_entry ++ outside_entry) ∷ [])).rejection
    ≡ some (unsafe_entry (outside (codes "etc/x")))
unfolding run_all
cuts_outside = refl

cuts_beneath :
    (restore ascii (codes "mail") ((symlink_entry ++ beneath_entry) ∷ [])).rejection
    ≡ some (unsafe_entry (beneath_symlink (codes "mail/l/x")))
unfolding run_all
cuts_beneath = refl

targets :
    restore_target_for (codes "/var/mail")
    ≡ record { parent_path = codes "/var"; root_name = codes "mail" }
unfolding restore_target_for last_slash
targets = refl

restore-Pushes_example : Pushes (concat upload) (restore ascii (codes "mail") upload)
restore-Pushes_example = restore-Pushes ascii (codes "mail") upload

abbrev loaded : RestoreTarGuard
loaded = received (take 600 file_entry) (new_guard (codes "mail"))

walk-Ends_example : Ends ascii loaded (walk ascii 602 loaded)
walk-Ends_example = walk-Ends ascii 602 loaded (omega arith)

walk_round-Forwards_example : Forwards ascii loaded (result (walk_round ascii loaded))
walk_round-Forwards_example = walk_round-Forwards ascii loaded refl
