-- ===== src/Config.antt =====
-- app/config.py: the values of `BaseConfig` that the modelled code reads.
use whs_secure_coding.Prelude.{ℕ}

abbrev pub transfer_min_amount : ℕ
transfer_min_amount = 1

abbrev pub transfer_max_amount : ℕ
transfer_max_amount = 1000000000

abbrev pub report_reason_min_chars : ℕ
report_reason_min_chars = 10

abbrev pub report_reason_max_chars : ℕ
report_reason_max_chars = 500

abbrev pub report_reason_max_bytes : ℕ
report_reason_max_bytes = 2000

abbrev pub report_auto_restriction_threshold : ℕ
report_auto_restriction_threshold = 3

abbrev pub chat_message_max_chars : ℕ
chat_message_max_chars = 500

abbrev pub chat_message_max_bytes : ℕ
chat_message_max_bytes = 2000

abbrev pub chat_max_connections_per_user : ℕ
chat_max_connections_per_user = 5

abbrev pub chat_socket_max_age_seconds : ℕ
chat_socket_max_age_seconds = 1800

abbrev pub initial_balance : ℕ
initial_balance = 100000

abbrev pub chat_message_burst_limit : ℕ
chat_message_burst_limit = 5

abbrev pub chat_message_burst_window_seconds : ℕ
chat_message_burst_window_seconds = 10

abbrev pub chat_message_hourly_limit : ℕ
chat_message_hourly_limit = 120

abbrev pub chat_join_limit : ℕ
chat_join_limit = 30

abbrev pub chat_join_window_seconds : ℕ
chat_join_window_seconds = 60

abbrev pub product_max_file_bytes : ℕ
product_max_file_bytes = 4194304

abbrev pub product_max_dimension : ℕ
product_max_dimension = 4096

abbrev pub product_max_pixels : ℕ
product_max_pixels = 16000000
