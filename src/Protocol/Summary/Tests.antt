-- ===== src/Protocol/Summary/Tests.antt =====
-- Concrete texts.
use zx909_gw.Prelude.{◌≡◌, refl, [], ◌∷◌}
use zx909_gw.Prelude.Int.{pos, negsuc}
use zx909_gw.Protocol.Status.{Status}
use zx909_gw.Samples.{sample_platform, sample_time}
use zx909_gw.Protocol.Summary.{codes, frame_string, status_string, wifi_lbs_string}

abbrev full_status : Status
full_status = record {
  battery_percent = pos 100;
  software_ver = 0x39;
  timezone = pos 3;
  upload_interval = 12;
  raw = 0x64 ∷ 0x3A ∷ [];
}

status_run : status_string full_status ≡ codes "battery=100% sw=0x39 tz=+3 interval=12 raw=643a"
unfolding status_string
status_run = refl

west_run :
    status_string (record full_status {
      battery_percent = negsuc 0;
      timezone = negsuc 4;
      upload_interval = 0;
      raw = [];
    })
    ≡ codes "battery=-1% sw=0x39 tz=-5"
unfolding status_string
west_run = refl

frame_run :
    frame_string (record { proto = 0xB3; body = 1 ∷ []; serial = 0; raw = 0x78 ∷ 0xB3 ∷ [] })
    ≡ codes "proto=0xB3 body_len=1 raw=78b3"
unfolding frame_string
frame_run = refl

wifi_lbs_run :
    wifi_lbs_string sample_platform
      (λ t. codes "T")
      (record {
        time = sample_time;
        wifi =
            record { mac = codes "aa:bb"; rssi = 200 } ∷ record { mac = codes "cc"; rssi = 7 } ∷ [];
        cells = record { mcc = 432; mnc = 11; lac = 1; cell_id = 20; signal = 3 } ∷ [];
        raw = 1 ∷ [];
      })
    ≡ codes "time=T wifi=2[aa:bb(200) cc(7)] cells=1[432/11/LAC=1/CI=20/sig=3]"
unfolding wifi_lbs_string
wifi_lbs_run = refl
