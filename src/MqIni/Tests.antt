-- ===== src/MqIni/Tests.antt =====
-- The queue manager of the package's own tests.
use mq_container.Base.{◌≡◌, refl, true, false, [], ◌∷◌, some, codes, is_space, arith, inl, eq_text}
use mq_container.LogRotation.{byte_length, rune_bytes}
use mq_container.Keystore.Labels.{unlines}
use mq_container.Qmgr.{Shell, clean_path}
use mq_container.Ready.{ok}
use mq_container.MqIni.{
  QueueManager, dspmqinf, get_queue_manager, get_data_directory, get_error_log_directory,
}
use mq_container.MqIni.Stanza.{IsPrintable, stanza_lines, get_queue_manager_lem}

abbrev slashed : QueueManager
slashed = record {
  qm_name = codes "a/b";
  prefix = codes "/var/mqm";
  directory = codes "a&b";
  data_path = [];
  installation_name = codes "Installation1";
}

abbrev shell : Shell
shell done c = record { out = unlines (stanza_lines slashed); rc = some 0; is_error = false }

error_logs : get_error_log_directory slashed ≡ codes "/var/mqm/qmgrs/a&b/errors"
unfolding get_error_log_directory get_data_directory clean_path eq_text
error_logs = refl

slashed-IsPrintable : IsPrintable slashed
unfolding is_space byte_length rune_bytes
slashed-IsPrintable = record {
  qm_name_value = record {
    before = codes "a/";
    end = b'b';
    ends = refl;
    solid = refl;
    on_one_line = refl;
    no_sign = refl;
    short = omega arith;
  };
  directory_value = record {
    before = codes "a&";
    end = b'b';
    ends = refl;
    solid = refl;
    on_one_line = refl;
    no_sign = refl;
    short = omega arith;
  };
  prefix_value = record {
    before = codes "/var/mq";
    end = b'm';
    ends = refl;
    solid = refl;
    on_one_line = refl;
    no_sign = refl;
    short = omega arith;
  };
  installation_name_value = record {
    before = codes "Installation";
    end = b'1';
    ends = refl;
    solid = refl;
    on_one_line = refl;
    no_sign = refl;
    short = omega arith;
  };
  data_path_value = inl refl;
}

get_queue_manager_lem_example :
    get_queue_manager true shell [] (codes "a/b") ≡ (dspmqinf (codes "a/b") ∷ [], some (ok slashed))
get_queue_manager_lem_example =
    get_queue_manager_lem shell [] (codes "a/b") slashed slashed-IsPrintable refl refl
