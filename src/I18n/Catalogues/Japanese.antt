-- ===== src/I18n/Catalogues/Japanese.antt =====
-- internal/i18n/ja.go: the Japanese catalogue.
use scuffinger.Prelude.{[], ◌∷◌}
use scuffinger.I18n.{Messages}
use scuffinger.I18n.Keys

unfoldable pub japanese : Messages
japanese =
    (Keys.msg_config_loaded, "設定を読み込みました")
    ∷ (Keys.err_config_load, "設定の読み込みに失敗しました")
    ∷ (Keys.msg_bootstrap_connecting, "バックエンドサービスに接続しています")
    ∷ (Keys.msg_bootstrap_self_tests, "起動時セルフテストを実行しています")
    ∷ (Keys.msg_bootstrap_tests_passed, "すべてのセルフテストに合格しました")
    ∷ (Keys.msg_bootstrap_health_start, "定期ヘルスチェックを開始しました")
    ∷ (Keys.err_bootstrap_connect, "必要なサービスに接続できません")
    ∷ (Keys.err_bootstrap_self_tests, "起動時セルフテストに失敗しました")
    ∷ (Keys.msg_manager_connecting, "サービスに接続しています")
    ∷ (Keys.msg_manager_connected, "サービスに接続しました")
    ∷ (Keys.msg_manager_self_test, "セルフテストを実行しています")
    ∷ (Keys.msg_manager_self_test_passed, "セルフテストに合格しました")
    ∷ (Keys.msg_manager_closing, "サービスを停止しています")
    ∷ (Keys.warn_manager_health_failed, "ヘルスチェックに失敗しました")
    ∷ (Keys.err_manager_connect, "サービスへの接続に失敗しました")
    ∷ (Keys.err_manager_self_test, "サービスのセルフテストに失敗しました")
    ∷ (Keys.err_manager_close, "サービスの終了中にエラーが発生しました")
    ∷ (Keys.err_manager_shutdown, "シャットダウン中にエラーが発生しました")
    ∷ (Keys.msg_cache_self_test_init, "現在のタイムスタンプでinitキーを設定しています")
    ∷ (Keys.msg_cache_self_test_passed, "キャッシュのセルフテストに合格しました")
    ∷ (Keys.err_cache_ping, "キャッシュに到達できません")
    ∷ (Keys.err_cache_set_init, "キャッシュへのinitキーの書き込みに失敗しました")
    ∷ (Keys.err_cache_get_init, "キャッシュからのinitキーの読み取りに失敗しました")
    ∷ (Keys.err_cache_init_mismatch, "キャッシュのinit値が一致しません")
    ∷ (Keys.msg_db_creating_test_db, "一時テストデータベースを作成しています")
    ∷ (Keys.msg_db_running_crud, "CRUD検証を実行しています")
    ∷ (Keys.msg_db_self_test_passed, "データベースのセルフテストに合格しました")
    ∷ (Keys.warn_db_drop_test_failed, "テストデータベースを削除できませんでした（次回起動時に再試行します）")
    ∷ (Keys.err_db_connect, "データベースに到達できません")
    ∷ (Keys.err_db_ping, "データベースがpingに応答しませんでした")
    ∷ (Keys.err_db_create_testdb, "テストデータベースの作成に失敗しました")
    ∷ (Keys.err_db_connect_testdb, "テストデータベースへの接続に失敗しました")
    ∷ (Keys.err_db_crud, "データベースのCRUD検証に失敗しました")
    ∷ (Keys.err_db_create_table, "テストテーブルの作成に失敗しました")
    ∷ (Keys.err_db_insert, "テストレコードの挿入に失敗しました")
    ∷ (Keys.err_db_read, "テストレコードの読み取りに失敗しました")
    ∷ (Keys.err_db_read_mismatch, "テストレコードの値が期待値と一致しません")
    ∷ (Keys.err_db_update, "テストレコードの更新に失敗しました")
    ∷ (Keys.err_db_read_after_update, "更新後のテストレコードの読み取りに失敗しました")
    ∷ (Keys.err_db_update_mismatch, "更新されたテストレコードの値が期待値と一致しません")
    ∷ (Keys.msg_server_starting, "HTTPサーバーを起動しています")
    ∷ (Keys.msg_server_shutdown, "HTTPサーバーを停止しています")
    ∷ (Keys.msg_server_stopped, "HTTPサーバーは正常に停止しました")
    ∷ (Keys.msg_server_routes, "ルートを登録しました")
    ∷ (Keys.err_server_listen, "HTTPサーバーでエラーが発生しました")
    ∷ (Keys.err_server_shutdown, "HTTPサーバーは強制的に停止されました")
    ∷ (Keys.msg_health_ready, "すべてのサービスは正常です")
    ∷ (Keys.msg_health_not_ready, "1つ以上のサービスが準備できていません")
    ∷ (Keys.msg_gh_connecting, "GitHub APIに接続しています")
    ∷ (Keys.msg_gh_connected, "GitHub APIに接続しました")
    ∷ (Keys.msg_gh_auth_token, "個人アクセストークンで認証しています")
    ∷ (Keys.msg_gh_auth_app, "GitHub Appとして認証しています")
    ∷ (Keys.msg_gh_self_test_passed, "GitHubのセルフテストに合格しました")
    ∷ (Keys.msg_gh_rate_remaining, "GitHub APIレート制限の状態")
    ∷ (Keys.warn_gh_rate_low, "GitHub APIのレート制限が残りわずかです")
    ∷ (Keys.err_gh_not_configured, "GitHubが設定されていません — トークンまたはアプリの認証情報を設定してください")
    ∷ (Keys.err_gh_auth, "GitHub認証に失敗しました")
    ∷ (Keys.err_gh_read_key, "GitHub Appの秘密鍵ファイルの読み取りに失敗しました")
    ∷ (Keys.err_gh_parse_key, "GitHub Appの秘密鍵の解析に失敗しました")
    ∷ (Keys.err_gh_install_token, "GitHub Appのインストールトークンの取得に失敗しました")
    ∷ (Keys.err_gh_self_test, "GitHubのセルフテストに失敗しました")
    ∷ (Keys.err_gh_rate_limit, "GitHub APIのレート制限が低すぎます")
    ∷ (Keys.err_gh_fetch_user, "GitHubユーザーの取得に失敗しました")
    ∷ (Keys.err_gh_fetch_org, "GitHub組織の取得に失敗しました")
    ∷ (Keys.err_gh_fetch_repo, "GitHubリポジトリの取得に失敗しました")
    ∷ (Keys.err_gh_fetch_branches, "リポジトリのブランチの取得に失敗しました")
    ∷ (Keys.err_gh_fetch_workflows, "リポジトリのワークフローの取得に失敗しました")
    ∷ (Keys.err_gh_fetch_runs, "ワークフローの実行の取得に失敗しました")
    ∷ (Keys.err_gh_fetch_rate_limit, "GitHubのレート制限の取得に失敗しました")
    ∷ (Keys.err_gh_invalid_workflow, "無効なワークフローID")
    ∷ (Keys.msg_gh_collector_starting, "GitHubリポジトリコレクターを開始しています")
    ∷ (Keys.msg_gh_collector_tick, "GitHub収集サイクルを実行しています")
    ∷ (Keys.msg_gh_collector_repo, "リポジトリのデータを収集しています")
    ∷ (Keys.msg_gh_collector_stopped, "GitHubリポジトリコレクターが停止しました")
    ∷ (Keys.msg_gh_collector_passed, "GitHubコレクターのセルフテストに合格しました")
    ∷ (Keys.msg_gh_collector_annotations, "失敗したジョブのアノテーションを収集しました")
    ∷ (Keys.msg_gh_collector_lock_acquired, "リポジトリの収集ロックを取得しました")
    ∷ (Keys.msg_gh_collector_lock_skipped, "リポジトリをスキップしました（別のインスタンスがロックを保持中）")
    ∷ (Keys.warn_gh_collector_lock_error, "分散ロックの取得に失敗しました（そのまま続行します）")
    ∷ (Keys.err_gh_collector_fetch_repo, "リポジトリのメタデータの取得に失敗しました")
    ∷ (Keys.err_gh_collector_fetch_runs, "ワークフローの実行の取得に失敗しました")
    ∷ (Keys.err_gh_collector_fetch_jobs, "ワークフロージョブの取得に失敗しました")
    ∷ (Keys.err_gh_collector_fetch_annotations, "チェックランのアノテーションの取得に失敗しました")
    ∷ (Keys.err_gh_collector_no_repos, "監視するリポジトリが設定されていません")
    ∷ (Keys.err_gh_collector_parse_repo, "無効なリポジトリ形式（期待形式: owner/repo）")
    ∷ (Keys.msg_auth_device_prompt, "URLでコードを入力して認証してください")
    ∷ (Keys.msg_auth_polling, "GitHubの認可を待機しています…")
    ∷ (Keys.msg_auth_success, "GitHubで正常に認証されました")
    ∷ (Keys.msg_auth_logged_out, "GitHub認証情報を削除しました")
    ∷ (Keys.msg_auth_status_logged_in, "GitHubにログイン中")
    ∷ (Keys.msg_auth_status_no_token, "ログインしていません — 'scuffinger github auth'を実行して認証してください")
    ∷ (Keys.msg_auth_token_from_vault, "システムボルトからGitHubトークンを使用しています")
    ∷ (Keys.err_auth_no_client_id, "OAuthログインにはgithub.client_idを設定する必要があります")
    ∷ (Keys.err_auth_device_code, "GitHubデバイスフローの開始に失敗しました")
    ∷ (Keys.err_auth_poll, "GitHub認可の完了に失敗しました")
    ∷ (Keys.err_auth_save_token, "システムボルトへのトークンの保存に失敗しました")
    ∷ (Keys.err_auth_verify_token, "保存されたトークンは無効になりました")
    ∷ (Keys.cmd_root_short, "Scuffinger — 軽量なGitHub監視サービス")
    ∷ (
      Keys.cmd_root_long,
      "Scuffingerは、GitHubリポジトリ、ワークフロー、メトリクスを監視するための軽量サービスです。Cobra、Viper、Ginで構築されています。",
    )
    ∷ (Keys.cmd_version_short, "バージョン番号を表示")
    ∷ (Keys.cmd_version_long, "scuffingerアプリケーションの現在のバージョンを表示します。利用可能な場合はビルド情報も含みます。")
    ∷ (Keys.cmd_serve_short, "HTTPサーバーを起動")
    ∷ (
      Keys.cmd_serve_long,
      "ヘルスチェック、Prometheusメトリクス、GitHub APIエンドポイントを備えたGin HTTPサーバーを起動します。サーバーは起動時にすべての設定済みバッキングサービスに接続します。",
    )
    ∷ (Keys.cmd_github_short, "GitHub認証とステータス")
    ∷ (
      Keys.cmd_github_long,
      "GitHub OAuth認証を管理します。サブコマンドを使用して、デバイスフローでログイン、認証ステータスの確認、または保存された認証情報の削除を行います。",
    )
    ∷ (Keys.cmd_github_auth_short, "OAuthを使用してGitHubで認証")
    ∷ (
      Keys.cmd_github_auth_long,
      "GitHub OAuthデバイスフローを開始します。github.com/login/deviceで入力するワンタイムコードが提供されます。認可後、トークンはシステムボルトに安全に保存されます。",
    )
    ∷ (Keys.cmd_github_status_short, "現在の認証ステータスを表示")
    ∷ (
      Keys.cmd_github_status_long,
      "現在のGitHub認証ステータスを表示します。認証情報が設定ファイル、環境変数、またはシステムボルトのどこに保存されているかを含みます。",
    )
    ∷ (Keys.cmd_github_logout_short, "保存されたGitHub認証情報を削除")
    ∷ (
      Keys.cmd_github_logout_long,
      "システムボルトに保存されているGitHub OAuthトークンを削除します。設定ファイルまたは環境変数で設定されたトークンには影響しません。",
    )
    ∷ (Keys.cmd_github_monitor_short, "GitHubリポジトリコレクターを起動")
    ∷ (
      Keys.cmd_github_monitor_long,
      "リポジトリのメタデータ、ワークフロー実行、ジョブステップのタイミングを定期的に取得するバックグラウンドGitHubコレクターを起動します。ヘルスチェックとPrometheusメトリクスのエンドポイントを公開しますが、APIプロキシルートは提供しません。APIサーバーとは別のプロセスとして実行するよう設計されています。",
    )
    ∷ (Keys.cmd_flag_config, "設定ファイルへのパス")
    ∷ []
