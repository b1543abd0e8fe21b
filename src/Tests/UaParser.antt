-- ===== src/Tests/UaParser.antt =====
-- The cases of internal/uaparser/parser_test.go.
use central_auth.Common.{◌≡◌, refl, String}
use central_auth.UaParser.{
  UaResult, parse, parse_browser, parse_os, find_version, digits, after, group, group_after,
}

abbrev result : String → String → UaResult
result b o = record { browser = b; os = o }

chrome_on_mac :
    parse
      "Mozilla/5.0 (Macintosh; Intel Mac OS X 10_15_7) AppleWebKit/537.36 (KHTML, like Gecko) Chrome/149.0.0.0 Safari/537.36"
    ≡ result "Chrome 149" "macOS"
unfolding parse_browser parse_os find_version digits after group group_after
chrome_on_mac = refl

safari_on_ios :
    parse
      "Mozilla/5.0 (iPhone; CPU iPhone OS 17_0 like Mac OS X) AppleWebKit/605.1.15 (KHTML, like Gecko) Version/17.0 Mobile/15E148 Safari/604.1"
    ≡ result "Safari" "iOS"
unfolding parse_browser parse_os find_version digits after group group_after
safari_on_ios = refl

firefox_on_windows :
    parse "Mozilla/5.0 (Windows NT 10.0; Win64; x64; rv:120.0) Gecko/20100101 Firefox/120.0"
    ≡ result "Firefox 120" "Windows"
unfolding parse_browser parse_os find_version digits after group group_after
firefox_on_windows = refl

edge_on_windows :
    parse
      "Mozilla/5.0 (Windows NT 10.0; Win64; x64) AppleWebKit/537.36 (KHTML, like Gecko) Chrome/120.0.0.0 Safari/537.36 Edg/120.0.0.0"
    ≡ result "Edge" "Windows"
unfolding parse_browser parse_os find_version digits after group group_after
edge_on_windows = refl

chrome_on_android :
    parse
      "Mozilla/5.0 (Linux; Android 13; Pixel 7) AppleWebKit/537.36 (KHTML, like Gecko) Chrome/116.0.0.0 Mobile Safari/537.36"
    ≡ result "Chrome 116" "Android"
unfolding parse_browser parse_os find_version digits after group group_after
chrome_on_android = refl

nothing_sent : parse "" ≡ result "Unknown" "Unknown"
unfolding parse_browser parse_os find_version digits after group group_after
nothing_sent = refl
