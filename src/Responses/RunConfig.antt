-- ===== src/Responses/RunConfig.antt =====
-- responses/src/run_config.rs. The widths of the numbers (u8, u16, usize) are facts that the
-- theorems take as hypotheses where they need them.
use tarantula.Base.{ℕ, Bool, false, Option, none, some, Text, codes}

pub record RunConfig : Type 0 where
  pub url : Text
  pub ignore_redirects : Option Bool
  pub maximum_redirects : Option ℕ
  pub maximum_depth : Option ℕ
  pub ignore_robots_txt : Option Bool
  pub keep_html_in_memory : Option Bool
  pub user_agent : Option Text
  pub robots_txt_info_url : Option Text
  pub callback_url : Option Text
  pub callback_url_finished : Option Text
  pub crawl_delay_ms : Option ℕ

unfoldable pub new : Text → Option Text → RunConfig
new url callback_url = record {
  url = url;
  ignore_redirects = some false;
  maximum_redirects = some 10;
  maximum_depth = some 16;
  ignore_robots_txt = some false;
  keep_html_in_memory = some false;
  user_agent = some (codes "tarantula 🕷");
  robots_txt_info_url = none;
  callback_url = callback_url;
  callback_url_finished = none;
  crawl_delay_ms = some 500;
}
